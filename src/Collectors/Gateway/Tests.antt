-- ===== src/Collectors/Gateway/Tests.antt =====
-- A batch that holds a row twice and one that is too late for its dataset.
use market_trader.Prelude.{ℕ, ◌≡◌, true, false, none, List, [], ◌∷◌}
use market_trader.Prelude.Eq.{nat_eq}
use market_trader.Prelude.Dict.{IsNodup}
use market_trader.Float.Fixed.{Fixed, whole, fixed_float}
use market_trader.Core.Schema.{Observation, number}
use market_trader.Core.Identity.{Identity}
use market_trader.Storage.Bitemporal.{Store}
use market_trader.Collectors.Gateway.{Gateway, ingest, nothing_new, ingest_again}

abbrev lib : Identity
lib = record { uuid5 = λ s. 7; isoformat = λ t. "t"; str = λ n. "0" }

abbrev gateway : Gateway
gateway = record { validate = true; strict = false }

abbrev bar : ℕ → Observation Fixed
bar known = record {
  source = "price";
  dataset = "price.ohlcv";
  entity_type = "equity";
  entity_id = "AAPL";
  ref = none;
  event_time = 10;
  knowledge_time = known;
  value = ("close", number (whole 10)) ∷ [];
  metadata = [];
  revision = 0;
  observation_id = 0;
  ingested_at = 50;
}

abbrev empty : Store Fixed
empty = []

abbrev batch : List (Observation Fixed)
batch = bar 11 ∷ bar 11 ∷ []

ingest_again_example :
    (ingest lib gateway batch (ingest lib gateway batch empty).1
      ≡ (nothing_new (ingest lib gateway batch empty).0, (ingest lib gateway batch empty).1))
    × IsNodup (ingest lib gateway batch empty).1
ingest_again_example = ingest_again lib gateway batch empty tt
