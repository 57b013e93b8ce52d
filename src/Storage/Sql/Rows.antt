-- ===== src/Storage/Sql/Rows.antt =====
-- An observation and the row that it is written as.
use market_trader.Prelude.{
  ◌≡◌, refl, ◌↔◌, arith, some, none, List, [], ◌∷◌, Mem, All, ok, inl, inr, sym, ap, ◌∙◌,
}
use market_trader.Core.Time.{Instant, DateTime, ensure_utc, naive_utc, to_utc, to_utc_lenient}
use market_trader.Core.Schema.{Observation, Uuid}
use market_trader.Storage.Sql.{
  ObservationRow, Uuids, aware, to_row, to_obs, to_rows, to_observations,
}

-- The naive UTC datetime of an instant.
abbrev pub naive : Instant → DateTime
naive t = record { wall = t; tzinfo = none }

pub naive_utc-aware : (t : Instant) → naive_utc (aware t) ≡ ok (naive t)
unfolding naive_utc ensure_utc to_utc
naive_utc-aware t = ground arith

module _ {F : Type 0} (uuids : Uuids) where
  abbrev pub row_of : Observation F → ObservationRow F
  row_of o = record {
    observation_id = uuids.str o.observation_id;
    source = o.source;
    dataset = o.dataset;
    entity_type = o.entity_type;
    entity_id = o.entity_id;
    ref = o.ref;
    event_time = naive o.event_time;
    knowledge_time = naive o.knowledge_time;
    revision = o.revision;
    value = o.value;
    metadata = o.metadata;
    ingested_at = naive o.ingested_at;
  }

  pub to_row_lem : (o : Observation F) → to_row uuids o ≡ ok (row_of o)
  unfolding to_row
  to_row_lem o =
      rw (naive_utc-aware o.event_time, to_row)
        (rw (naive_utc-aware o.knowledge_time) (rw (naive_utc-aware o.ingested_at) refl))

  abbrev pub rows_of : List (Observation F) → List (ObservationRow F)
  rows_of [] = []
  rows_of (o ∷ os) = row_of o ∷ rows_of os

  pub to_rows_lem : (os : List (Observation F)) → to_rows uuids os ≡ ok (rows_of os)
  unfolding to_rows
  to_rows_lem [] = refl
  to_rows_lem (o ∷ os) = rw (to_row_lem o, to_rows) (rw (to_rows_lem os) refl)

  module _ (parse-str : (u : Uuid) → uuids.parse (uuids.str u) ≡ some u) where
    pub to_obs-row_of : (o : Observation F) → to_obs uuids (row_of o) ≡ ok o
    unfolding to_obs to_utc_lenient
    to_obs-row_of o = rw (parse-str o.observation_id, to_obs) refl

    pub row_of-injective : (o p : Observation F) → row_of o ≡ row_of p → o ≡ p
    row_of-injective o p e = cc (to_obs-row_of o, to_obs-row_of p, ap (to_obs uuids) e)

    -- Rows that were written from observations read back as those.
    pub to_observations_lem :
        (P : Observation F → Type 0) (rs : List (ObservationRow F))
        → All (λ r. (o : Observation F) × (r ≡ row_of o) × P o) rs
        → (os : List (Observation F)) × (to_observations uuids rs ≡ ok os)
          × ((o : Observation F) → Mem o os ↔ Mem (row_of o) rs)
          × All P os
    unfolding to_observations
    to_observations_lem P [] h = ([], refl, λ o. (λ m. m, λ m. m), tt)
    to_observations_lem P (r ∷ rs) ((o, e, p), h) =
        let (os, read, same, all) = to_observations_lem P rs h in
        (
          o ∷ os,
          rw e (rw (to_obs-row_of o, to_observations) (rw read refl)),
          λ q. (
            λ m. elim m [ inl g ↦ inl (ap row_of g ∙ sym e) | inr n ↦ inr ((same q).0 n) ],
            λ m. elim m [ inl g ↦ inl (row_of-injective q o (g ∙ e)) | inr n ↦ inr ((same q).1 n) ],
          ),
          (p, all),
        )
