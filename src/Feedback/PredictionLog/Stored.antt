-- ===== src/Feedback/PredictionLog/Stored.antt =====
-- A prediction that is logged and loaded again through the store.
use market_trader.Prelude.{
  String, ◌≤◌, ◌≡◌, refl, ◌⊎◌, inl, inr, Option, none, some, List, [], ◌∷◌, Mem, All, arith,
  all_of_mem, mem-filter_of,
}
use market_trader.Prelude.Lists.{All-of_forall}
use market_trader.Prelude.Eq.{◌==◌, string_eq, nat_eq, beq_refl}
use market_trader.Prelude.Dict.{values, mem-values-insert_self}
use market_trader.Core.Time.{Instant}
use market_trader.Core.Schema.{Observation, logical_key}
use market_trader.Core.Identity.{Identity, with_deterministic_id}
use market_trader.Storage.Bitemporal.{Store, by_dataset, upsert_many, add_many, add, as_of}
use market_trader.Storage.Bitemporal.PointInTime.{Matches, as_of_no_lookahead, as_of_complete}
use market_trader.Feedback.PredictionLog.{
  PredictionRecord, prediction_dataset, to_observation, from_observation, log_predictions, read_all,
  of_version, load_predictions, from-to_observation,
}

module _ {F : Type 0} where
  -- An observation that `from_observation` reads.
  abbrev pub IsReadable : Observation F → Type 0
  IsReadable o = (rec : PredictionRecord F) × (from_observation o ≡ some rec)

  read_all_of :
      (os : List (Observation F))
      → All IsReadable os
      → (rs : List (PredictionRecord F)) × (read_all os ≡ some rs)
        × ((o : Observation F) (rec : PredictionRecord F)
            → Mem o os
            → from_observation o ≡ some rec
            → Mem rec rs)
  unfolding read_all
  read_all_of [] h = ([], refl, λ o rec m e. absurd m)
  read_all_of (o ∷ os) ((r, e), h) =
      let (rs, read, found) = read_all_of os h in
      (
        r ∷ rs,
        rw (e, read_all) (rw read refl),
        λ p rec m g. elim m [
          | inl same ↦ inl (ground (arith, e, g, same))
          | inr there ↦ inr (found p rec there g)
        ],
      )

  -- The store after one prediction was logged.
  abbrev pub logged : Identity → Instant → PredictionRecord F → Store F → Store F
  logged lib now rec s = (log_predictions lib now (rec ∷ []) s).1

  mem-logged :
      (lib : Identity) (now : Instant) (rec : PredictionRecord F) (s : Store F)
      → Mem (to_observation lib now rec) (values (logged lib now rec s))
  unfolding log_predictions upsert_many add_many add
  mem-logged lib now rec s =
      mem-values-insert_self (to_observation lib now rec).observation_id
        (to_observation lib now rec) s

  Matches-to_observation :
      (lib : Identity) (now : Instant) (rec : PredictionRecord F)
      → Matches (by_dataset prediction_dataset) (to_observation lib now rec)
  unfolding to_observation with_deterministic_id
  Matches-to_observation lib now rec = record {
    source = tt;
    dataset = refl;
    entity_type = tt;
    entity_id = tt;
  }

  of_version-mem :
      (v : Option String) (rec : PredictionRecord F) (rs : List (PredictionRecord F))
      → (v ≡ none) ⊎ (v ≡ some rec.model_version)
      → Mem rec rs
      → Mem rec (of_version v rs)
  of_version-mem v rec rs (inl e) m = rw e m
  of_version-mem v rec rs (inr e) m = rw e (
      mem-filter_of (λ (r : PredictionRecord F). r.model_version == rec.model_version) rec rs m
        (beq_refl rec.model_version))

  knowledge_time-to_observation :
      (lib : Identity) (now : Instant) (rec : PredictionRecord F)
      → (to_observation lib now rec).knowledge_time ≡ rec.as_of
  unfolding to_observation with_deterministic_id
  knowledge_time-to_observation lib now rec = refl

  -- A prediction that is logged is among those that are loaded from the store at its time or later, for
  -- its version or for all, with every field of it, where the rows of predictions in the store can
  -- be read and none of them but its own has its logical key; the load does not fail then.
  pub load-log_predictions :
      (lib : Identity) (now at : Instant) (rec : PredictionRecord F) (v : Option String)
      (s : Store F)
      → rec.as_of ≤ at
      → (v ≡ none) ⊎ (v ≡ some rec.model_version)
      → ((o : Observation F)
          → Mem o (values (logged lib now rec s))
          → o.dataset ≡ prediction_dataset
          → IsReadable o)
      → ((o : Observation F)
          → Mem o (values (logged lib now rec s))
          → logical_key o ≡ logical_key (to_observation lib now rec)
          → o ≡ to_observation lib now rec)
      → (rs : List (PredictionRecord F)) × (load_predictions at v (logged lib now rec s) ≡ some rs)
        × Mem rec rs
  unfolding load_predictions
  load-log_predictions lib now at rec v s h version readable alone =
      let o = to_observation lib now rec in
      let q = by_dataset prediction_dataset in
      let s' = logged lib now rec s in
      let rows = as_of at q s' in
      let seen = as_of_no_lookahead at q s' in
      let (r, there, same, fresh, itself) =
        as_of_complete at q s' o (mem-logged lib now rec s)
          (rw (knowledge_time-to_observation lib now rec) h) (Matches-to_observation lib now rec) in
      let own : r ≡ o = alone r (all_of_mem _ r rows seen there).0 same in
      let all_read : All IsReadable rows = All-of_forall IsReadable rows (λ p m.
        let (stored, known, matches) = all_of_mem _ p rows seen m in
        readable p stored matches.dataset) in
      let (rs, read, found) = read_all_of rows all_read in
      (
        of_version v rs,
        rw (read, load_predictions) refl,
        of_version-mem v rec rs version
            (found r rec there (rw own (from-to_observation lib now rec))),
      )
