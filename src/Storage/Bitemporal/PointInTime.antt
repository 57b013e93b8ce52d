-- ===== src/Storage/Bitemporal/PointInTime.antt =====
-- The point-in-time guarantee of `as_of`.
use market_trader.Prelude.{
  ◌≤◌, ◌<◌, ◌≡◌, refl, Bool, true, false, Option, none, some, List, [], ◌∷◌, arith, All, Mem,
  Bool-cases, inl, inr, ◌⊎◌, leb, filter, leb→le, le→leb, mem-filter, mem-filter_of, All-of_forall,
  String,
}
use market_trader.Prelude.Eq.{◌==◌, beq_iff, nat_eq, string_eq}
use market_trader.Prelude.Sort.{sort_by-All, sort_by-mem, mem-sort_by}
use market_trader.Prelude.Order.{list_ord, nat_ord}
use market_trader.Prelude.Dict.{lookup, insert, values}
use market_trader.Core.Time.{Instant}
use market_trader.Core.Schema.{Observation, logical_key, key_eq}
use market_trader.Storage.Bitemporal.{
  Store, Query, newer, narrow, latest_if, visible, as_of, add, sort_le, sort_observations,
}
use market_trader.Storage.Bitemporal.Collapse.{collapse-latest, collapse-All, collapse_unique}

-- `field is None or o.field == field`
abbrev pub Accepts : Option String → String → Type 0
Accepts none s = Unit
Accepts (some t) s = s ≡ t

module _ {F : Type 0} where
  -- What the filters of a query ask of a row.
  pub record Matches (q : Query) (o : Observation F) : Type 0 where
    pub source : Accepts q.source o.source
    pub dataset : Accepts q.dataset o.dataset
    pub entity_type : Accepts q.entity_type o.entity_type
    pub entity_id : Accepts q.entity_id o.entity_id

  mem-narrow :
      (field : Observation F → String) (s : Option String) (o : Observation F)
      (rows : List (Observation F))
      → Mem o (narrow field s rows)
      → Mem o rows × Accepts s (field o)
  mem-narrow field none o rows m = (m, tt)
  mem-narrow field (some t) o rows m =
      let (there, e) = mem-filter (λ o. field o == t) o rows m in (there, (beq_iff (field o) t).0 e)

  mem-narrow_of :
      (field : Observation F → String) (s : Option String) (o : Observation F)
      (rows : List (Observation F))
      → Mem o rows
      → Accepts s (field o)
      → Mem o (narrow field s rows)
  mem-narrow_of field none o rows m e = m
  mem-narrow_of field (some t) o rows m e =
      mem-filter_of (λ o. field o == t) o rows m ((beq_iff (field o) t).1 e)

  pub mem-visible :
      (k : Instant) (q : Query) (s : Store F) (o : Observation F)
      → Mem o (visible k q s)
      → Mem o (values s) × (o.knowledge_time ≤ k) × Matches q o
  unfolding visible
  mem-visible k q s o m =
      let (m3, e3) = mem-narrow (λ o. o.entity_id) q.entity_id o _ m in
      let (m2, e2) = mem-narrow (λ o. o.entity_type) q.entity_type o _ m3 in
      let (m1, e1) = mem-narrow (λ o. o.dataset) q.dataset o _ m2 in
      let (m0, e0) = mem-narrow (λ o. o.source) q.source o _ m1 in
      let (m', e') = mem-filter (λ o. leb o.knowledge_time k) o (values s) m0 in
      (m', leb→le _ _ e', record { source = e0; dataset = e1; entity_type = e2; entity_id = e3 })

  pub mem-visible_of :
      (k : Instant) (q : Query) (s : Store F) (o : Observation F)
      → Mem o (values s)
      → o.knowledge_time ≤ k
      → Matches q o
      → Mem o (visible k q s)
  unfolding visible
  mem-visible_of k q s o m h a =
      mem-narrow_of (λ o. o.entity_id) q.entity_id o _
        (mem-narrow_of (λ o. o.entity_type) q.entity_type o _
          (mem-narrow_of (λ o. o.dataset) q.dataset o _
            (mem-narrow_of (λ o. o.source) q.source o _
              (mem-filter_of (λ o. leb o.knowledge_time k) o (values s) m (le→leb _ _ h)) a.source)
            a.dataset)
          a.entity_type)
        a.entity_id

  latest_if-All {κ} :
      (P : Observation F → Type κ) (b : Bool) (rows : List (Observation F))
      → All P rows
      → All P (latest_if b rows)
  latest_if-All P true rows h = collapse-All P rows h
  latest_if-All P false rows h = h

  latest_if_complete :
      (b : Bool) (rows : List (Observation F)) (o : Observation F)
      → Mem o rows
      → (r : Observation F) × Mem r (latest_if b rows)
        × (logical_key r ≡ logical_key o)
        × (newer o r ≡ false)
        × ((b ≡ true) ⊎ (r ≡ o))
  latest_if_complete true rows o m =
      let (r, kept, same, fresh) = collapse-latest rows o m in (r, kept, same, fresh, inl refl)
  latest_if_complete false rows o m = (o, m, refl, ground arith, inr refl)

  latest_if_unique :
      (b : Bool) (rows : List (Observation F)) (o p : Observation F)
      → b ≡ true
      → Mem o (latest_if b rows)
      → Mem p (latest_if b rows)
      → logical_key o ≡ logical_key p
      → o ≡ p
  latest_if_unique true rows o p e m n same = collapse_unique rows o p m n same
  latest_if_unique false rows o p e m n same = absurd (cc)

  -- Whatever the query, every row that `as_of` returns is in the store, was knowable at `k`, and
  -- passes each filter of the query.
  pub as_of_no_lookahead :
      (k : Instant) (q : Query) (s : Store F)
      → All (λ o. Mem o (values s) × (o.knowledge_time ≤ k) × Matches q o) (as_of k q s)
  unfolding as_of sort_observations
  as_of_no_lookahead k q s =
      sort_by-All sort_le _ (latest_if q.latest_revision_only (visible k q s)) (
        latest_if-All _ q.latest_revision_only _
          (All-of_forall _ (visible k q s) (mem-visible k q s)))

  is_newest :
      (o r : Observation F)
      → newer o r ≡ false
      → (o.knowledge_time < r.knowledge_time)
        ⊎ ((o.knowledge_time ≡ r.knowledge_time) × (o.revision ≤ r.revision))
  is_newest o r h = ground arith

  -- For every stored row that was knowable at `k` and passes the filters, `as_of` returns a row of the
  -- same logical key, known later or at the same time in no older revision; without
  -- `latest_revision_only`, that row itself.
  pub as_of_complete :
      (k : Instant) (q : Query) (s : Store F) (o : Observation F)
      → Mem o (values s)
      → o.knowledge_time ≤ k
      → Matches q o
      → (r : Observation F) × Mem r (as_of k q s)
        × (logical_key r ≡ logical_key o)
        × ((o.knowledge_time < r.knowledge_time)
            ⊎ ((o.knowledge_time ≡ r.knowledge_time) × (o.revision ≤ r.revision)))
        × ((q.latest_revision_only ≡ true) ⊎ (r ≡ o))
  unfolding as_of sort_observations
  as_of_complete k q s o m h a =
      let (r, kept, same, fresh, itself) =
        latest_if_complete q.latest_revision_only (visible k q s) o
          (mem-visible_of k q s o m h a) in
      (r, sort_by-mem sort_le r _ kept, same, is_newest o r fresh, itself)

  -- With `latest_revision_only`, no two rows of the answer are revisions of one fact.
  pub as_of_unique :
      (k : Instant) (q : Query) (s : Store F) (o p : Observation F)
      → q.latest_revision_only ≡ true
      → Mem o (as_of k q s)
      → Mem p (as_of k q s)
      → logical_key o ≡ logical_key p
      → o ≡ p
  unfolding as_of sort_observations
  as_of_unique k q s o p e m n same =
      latest_if_unique q.latest_revision_only (visible k q s) o p e (mem-sort_by sort_le o _ m)
        (mem-sort_by sort_le p _ n) same

  filter-values-insert :
      (k : Instant) (o : Observation F) (s : Store F)
      → k < o.knowledge_time
      → ((p : Observation F) → lookup o.observation_id s ≡ some p → k < p.knowledge_time)
      → filter (λ r. leb r.knowledge_time k) (values (insert o.observation_id o s))
        ≡ filter (λ r. leb r.knowledge_time k) (values s)
  filter-values-insert k o [] h old = ground arith
  filter-values-insert k o ((j, p) ∷ s) h old = elim (Bool-cases (j == o.observation_id)) [
    | inl t ↦ ground (arith, old p)
    | inr t ↦ ground (arith, filter-values-insert k o s h (λ r e. old r (rw t e)))
  ]

  -- A fact that becomes known after `k` changes no answer as of `k`: the past cannot be rewritten
  -- by adding it, unless it replaces, under its own id, a row that was already knowable at `k`.
  pub as_of-add_future :
      (k : Instant) (q : Query) (s : Store F) (o : Observation F)
      → k < o.knowledge_time
      → ((p : Observation F) → lookup o.observation_id s ≡ some p → k < p.knowledge_time)
      → as_of k q (add o s) ≡ as_of k q s
  unfolding as_of visible add
  as_of-add_future k q s o h old = rw (filter-values-insert k o s h old)
