-- ===== src/Storage/Bitemporal.antt =====
-- src/market_trader/storage/bitemporal.py: the revision and ordering rules that the backends share,
-- and the in-memory store.
pub mod Collapse
pub mod PointInTime
pub mod Upsert
mod Tests
use market_trader.Prelude.{
  ℕ, String, Bool, true, false, ◌&&◌, ◌||◌, Option, none, some, List, [], ◌∷◌, ltb, leb, nat_beq,
  if◌then◌else◌, length, filter, Result, ok, err,
}
use market_trader.Prelude.Eq.{◌==◌, nat_eq, string_eq}
use market_trader.Prelude.Order.{codes, nat_ord, list_ord, lex_le}
use market_trader.Prelude.Sort.{sort_by}
use market_trader.Prelude.Dict.{Dict, lookup, insert, values}
use market_trader.Core.Time.{Instant, DateTime, TimeError, ensure_utc}
use market_trader.Core.Schema.{Observation, Uuid, LogicalKey, logical_key, key_eq}

abbrev pub Store : Type 0 → Type 0
Store F = Dict Uuid (Observation F)

-- The arguments of `as_of` after the knowledge time.
pub record Query : Type 0 where
  pub source : Option String
  pub dataset : Option String
  pub entity_type : Option String
  pub entity_id : Option String
  pub latest_revision_only : Bool

-- `as_of(k, dataset=d)`, the call that the program makes most.
abbrev pub by_dataset : String → Query
by_dataset d = record {
  source = none;
  dataset = some d;
  entity_type = none;
  entity_id = none;
  latest_revision_only = true;
}

module _ {F : Type 0} where
  -- `(o.knowledge_time, o.revision) > (cur.knowledge_time, cur.revision)`
  abbrev pub newer : Observation F → Observation F → Bool
  newer o cur =
      ltb cur.knowledge_time o.knowledge_time
      || (nat_beq cur.knowledge_time o.knowledge_time && ltb cur.revision o.revision)

  -- One round of the loop of `collapse_latest_revisions`.
  unfoldable pub keep_latest :
      Dict LogicalKey (Observation F) → Observation F → Dict LogicalKey (Observation F)
  keep_latest best o = elim (lookup (logical_key o) best) [
    | none ↦ insert (logical_key o) o best
    | some cur ↦ if newer o cur then insert (logical_key o) o best else best
  ]

  unfoldable pub collapse_from :
      Dict LogicalKey (Observation F) → List (Observation F) → Dict LogicalKey (Observation F)
  collapse_from best [] = best
  collapse_from best (o ∷ rows) = collapse_from (keep_latest best o) rows

  unfoldable pub collapse_latest_revisions : List (Observation F) → List (Observation F)
  collapse_latest_revisions rows = values (collapse_from [] rows)

  -- The tuple that `sort_observations` compares, each part as a sequence of numbers.
  abbrev pub sort_key : Observation F → List (List ℕ)
  sort_key o =
      (o.knowledge_time ∷ [])
      ∷ (o.event_time ∷ [])
      ∷ codes o.source
      ∷ codes o.dataset
      ∷ codes o.entity_id
      ∷ (o.revision ∷ [])
      ∷ []

  unfoldable pub sort_le : Observation F → Observation F → Bool
  sort_le a b = lex_le (sort_key a) (sort_key b)

  unfoldable pub sort_observations : List (Observation F) → List (Observation F)
  sort_observations rows = sort_by sort_le rows

  unfoldable pub add : Observation F → Store F → Store F
  add o s = insert o.observation_id o s

  unfoldable pub add_many : List (Observation F) → Store F → Store F
  unfolding add
  add_many [] s = s
  add_many (o ∷ os) s = add_many os (add o s)

  unfoldable pub upsert_many : List (Observation F) → Store F → Store F
  unfolding add_many
  upsert_many os s = add_many os s

  unfoldable pub count : Store F → ℕ
  count s = length s

  -- `if field is not None: rows = [o for o in rows if o.field == field]`
  abbrev pub narrow :
      (Observation F → String) → Option String → List (Observation F) → List (Observation F)
  narrow field none rows = rows
  narrow field (some s) rows = filter (λ o. field o == s) rows

  -- The rows before the revisions are collapsed.
  unfoldable pub visible : Instant → Query → Store F → List (Observation F)
  visible k q s =
      narrow (λ o. o.entity_id) q.entity_id
        (narrow (λ o. o.entity_type) q.entity_type
          (narrow (λ o. o.dataset) q.dataset
            (narrow (λ o. o.source) q.source (filter (λ o. leb o.knowledge_time k) (values s)))))

  -- `if latest_revision_only: rows = collapse_latest_revisions(rows)`
  abbrev pub latest_if : Bool → List (Observation F) → List (Observation F)
  latest_if true rows = collapse_latest_revisions rows
  latest_if false rows = rows

  unfoldable pub as_of : Instant → Query → Store F → List (Observation F)
  as_of k q s = sort_observations (latest_if q.latest_revision_only (visible k q s))

  -- `as_of` as it is called, with a `datetime` that may be naive.
  unfoldable pub as_of_datetime :
      DateTime → Query → Store F → Result TimeError (List (Observation F))
  as_of_datetime dt q s = elim (ensure_utc dt) [ ok k ↦ ok (as_of k q s) | err e ↦ err e ]
