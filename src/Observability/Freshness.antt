-- ===== src/Observability/Freshness.antt =====
-- src/market_trader/observability/freshness.py: how stale each source is.
use market_trader.Prelude.{
  ◌-◌, String, Bool, true, Option, none, some, List, [], ◌∷◌, ltb, if◌then◌else◌, map,
}
use market_trader.Float.{Float}
use market_trader.Core.Time.{Instant}
use market_trader.Core.Schema.{Observation}
use market_trader.Storage.Bitemporal.{Store, Query, as_of}

pub record SourceFreshness (F : Type 0) : Type 0 where
  pub source : String
  pub last_knowledge_time : Option Instant
  pub hours_stale : Option F
  pub stale : Bool

-- `store.as_of(now, source=source)`
abbrev pub by_source : String → Query
by_source s = record {
  source = some s;
  dataset = none;
  entity_type = none;
  entity_id = none;
  latest_revision_only = true;
}

module _ {F : Type 0} where
  -- `max(o.knowledge_time for o in observations)`
  unfoldable pub latest_known : Instant → List (Observation F) → Instant
  latest_known best [] = best
  latest_known best (o ∷ os) =
      latest_known (if ltb best o.knowledge_time then o.knowledge_time else best) os

module _ {F : Type 0} ⦃f : Float F⦄ where
  unfoldable pub freshness_of : Instant → F → String → List (Observation F) → SourceFreshness F
  freshness_of now max_age_hours source [] = record {
    source = source;
    last_knowledge_time = none;
    hours_stale = none;
    stale = true;
  }
  freshness_of now max_age_hours source (o ∷ os) =
      let last = latest_known o.knowledge_time os in
      let hours = f.div (f.lit (now - last) 6) (f.lit 3600 0) in
      record {
        source = source;
        last_knowledge_time = some last;
        hours_stale = some hours;
        stale = f.lt max_age_hours hours;
      }

  -- What `as_of` returns is known by `now`, so that the difference is exact.
  unfoldable pub data_freshness : Instant → F → List String → Store F → List (SourceFreshness F)
  data_freshness now max_age_hours sources s =
      map (λ source. freshness_of now max_age_hours source (as_of now (by_source source) s)) sources
