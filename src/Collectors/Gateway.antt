-- ===== src/Collectors/Gateway.antt =====
-- src/market_trader/collectors/gateway.py: `IngestionGateway` over the in-memory store.
mod Tests
use market_trader.Prelude.{
  ℕ, ◌-◌, ◌≡◌, refl, Bool, true, false, not, ◌&&◌, List, [], ◌∷◌, map, length, Result, ok, err,
  arith, if◌then◌else◌, Bool-cases, inl, inr, ap, sym,
}
use market_trader.Prelude.Eq.{nat_eq}
use market_trader.Prelude.Dict.{Dict, values, insert, IsNodup}
use market_trader.Float.{Float}
use market_trader.Core.Schema.{Observation, Uuid}
use market_trader.Core.Identity.{Identity, with_deterministic_id}
use market_trader.Storage.Bitemporal.{Store, upsert_many, count}
use market_trader.Storage.Bitemporal.Upsert.{upsert_many_idem}
use market_trader.Collectors.Quality.{QualityReport, validate_observations, is_ok}

pub record IngestSummary : Type 0 where
  pub received : ℕ
  pub unique : ℕ
  pub newly_added : ℕ
  pub quality_ok : Bool
  pub quality_issues : ℕ

pub record Gateway : Type 0 where
  pub validate : Bool
  pub strict : Bool

-- `DataQualityError`
pub data IngestError : Type 0 where
  quality_error : QualityReport → IngestError

-- `(report.ok, len(report))`, or the defaults without a report.
abbrev pub quality_of : Bool → QualityReport → Bool × ℕ
quality_of true r = (is_ok r, length r.issues)
quality_of false r = (true, 0)

-- The first answer, but that nothing is new.
abbrev pub nothing_new : Result IngestError IngestSummary → Result IngestError IngestSummary
nothing_new (ok summary) = ok (record summary { newly_added = 0 })
nothing_new (err e) = err e

module _ {F : Type 0} where
  -- The loop over the batch, which keeps the last row of each id.
  unfoldable pub stamp_all :
      Identity → List (Observation F) → Dict Uuid (Observation F) → Dict Uuid (Observation F)
  stamp_all lib [] by_id = by_id
  stamp_all lib (o ∷ os) by_id =
      let stamped = with_deterministic_id lib o in
      stamp_all lib os (insert stamped.observation_id stamped by_id)

  unfoldable pub unique_of : Identity → List (Observation F) → List (Observation F)
  unique_of lib os = values (stamp_all lib os [])

module _ {F : Type 0} ⦃f : Float F⦄ (lib : Identity) (gateway : Gateway) where
  -- The result and the store. An upsert never shrinks the store, so the difference is exact.
  unfoldable pub ingest :
      List (Observation F) → Store F → Result IngestError IngestSummary × Store F
  ingest os s =
      let unique = unique_of lib os in
      let report = validate_observations unique in
      let after = upsert_many unique s in
      let quality = quality_of gateway.validate report in
      if gateway.validate && not (is_ok report) && gateway.strict
      then (err (quality_error report), s)
      else (
        ok (record {
          received = length os;
          unique = length unique;
          newly_added = count after - count s;
          quality_ok = quality.0;
          quality_issues = quality.1;
        }),
        after,
      )

  -- Ingesting a batch again, whatever it holds, leaves the store as the first time left it, and gives
  -- the same answer but that it counts no row as new; a batch that is refused is refused again.
  pub ingest_again :
      (os : List (Observation F)) (s : Store F)
      → IsNodup s
      → (ingest os (ingest os s).1 ≡ (nothing_new (ingest os s).0, (ingest os s).1))
        × IsNodup (ingest os s).1
  unfolding ingest
  ingest_again os s n =
      let unique = unique_of lib os in
      let report = validate_observations unique in
      let idem = upsert_many_idem unique s n in
      let none_new : count (upsert_many unique s) - count (upsert_many unique s) ≡ 0 =
        omega arith in
      elim (Bool-cases (gateway.validate && not (is_ok report) && gateway.strict)) [
        | inl e ↦ rw e (refl, n)
        | inr e ↦ rw (e, idem.0, none_new) (refl, idem.1)
      ]
