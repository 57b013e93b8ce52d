-- ===== src/Runtime/Sleeve/Fixture.antt =====
-- The texts and the rows that the tests of the sleeves share.
use market_trader.Prelude.{ℕ, String, some, none, []}
use market_trader.Prelude.Dict.{Dict}
use market_trader.Float.Fixed.{Fixed}
use market_trader.Core.Schema.{Observation, Value}
use market_trader.Runtime.Sleeve.{Texts}

abbrev pub texts : Texts
texts = record {
  fromisoformat = λ s. some (record { wall = 90; tzinfo = none });
  digest = λ s. s;
  date_text = λ t. "2026-01-05";
}

abbrev pub row : ℕ → String → String → String → Dict String (Value Fixed) → Observation Fixed
row id ref_text dataset symbol value = record {
  source = "test";
  dataset = dataset;
  entity_type = "equity";
  entity_id = symbol;
  ref = some ref_text;
  event_time = 10;
  knowledge_time = 11;
  value = value;
  metadata = [];
  revision = 0;
  observation_id = id;
  ingested_at = 50;
}
