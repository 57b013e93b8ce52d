-- ===== src/Runtime/InsiderEvents/Tests.antt =====
-- Three insider purchases under an open gate, one of a name that is held.
use market_trader.Prelude.{
  ℕ, ◌+◌, ◌*◌, ◌≤◌, ◌≡◌, String, some, none, true, false, List, [], ◌∷◌, All, any, length, arith,
}
use market_trader.Prelude.Eq.{◌==◌, string_eq}
use market_trader.Float.Fixed.{Fixed, cents, fixed_float}
use market_trader.Core.Schema.{Observation, boolean}
use market_trader.Storage.Bitemporal.{Store}
use market_trader.Memory.Taxonomy.{day}
use market_trader.Runtime.InsiderEvents.{
  SleeveEntry, insider_cluster_entries, insider_cluster_entries-capped,
}

abbrev filing : ℕ → String → Observation Fixed
filing id symbol = record {
  source = "edgar";
  dataset = "filing.form4";
  entity_type = "equity";
  entity_id = symbol;
  ref = none;
  event_time = 10;
  knowledge_time = 11;
  value = ("is_purchase", boolean true) ∷ [];
  metadata = [];
  revision = 0;
  observation_id = id;
  ingested_at = 50;
}

abbrev store : Store Fixed
store = (1, filing 1 "AAPL") ∷ (2, filing 2 "MSFT") ∷ (3, filing 3 "XOM") ∷ []

abbrev entries : List (SleeveEntry Fixed)
entries = insider_cluster_entries 100 (some (cents 3)) 5 1 5 1 30 ("MSFT" ∷ []) store

insider_cluster_entries-capped_example :
    (length entries ≤ 1)
    × All
        (λ e. (any (λ n. n == e.symbol) ("MSFT" ∷ []) ≡ false) × (e.exit_by ≡ 100 + 5 * day))
        entries
insider_cluster_entries-capped_example =
    insider_cluster_entries-capped 100 (some (cents 3)) 5 1 5 1 30 ("MSFT" ∷ []) store (omega arith)
