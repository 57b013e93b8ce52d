-- ===== src/Runtime/InsiderSleeve/Tests.antt =====
-- The sleeve holds MSFT past its time and sees three purchases of AAPL.
use market_trader.Prelude.{ℕ, String, ◌≡◌, refl, some, true, [], ◌∷◌, ok}
use market_trader.Prelude.Eq.{string_eq}
use market_trader.Prelude.Sort.{sort_by, insert_sorted}
use market_trader.Float.Fixed.{Fixed, cents, whole, fixed_float}
use market_trader.Core.Time.{to_utc_lenient}
use market_trader.Core.Schema.{Observation, boolean, number, integer, text}
use market_trader.Storage.Bitemporal.{
  Store, as_of, visible, sort_observations, collapse_latest_revisions, collapse_from, keep_latest,
}
use market_trader.Execution.Engine.Fixture.{broker, env, settings, account}
use market_trader.Runtime.Sleeve.{PassState}
use market_trader.Runtime.Sleeve.Fixture.{texts, row}
use market_trader.Runtime.Sleeve.Own.{IsOwn}
use market_trader.Runtime.Sleeve.Routed.{Routed}
use market_trader.Runtime.InsiderSleeve.Positions.{
  InsiderSleevePosition, active_insider_positions, latest_by_symbol, open_positions, position_of,
}
use market_trader.Runtime.InsiderSleeve.Pass.{decide, run_insider_sleeve_cycle}
use market_trader.Runtime.InsiderSleeve.Opening.{IsPass, run_insider_sleeve_cycle-Routed}

abbrev purchase : ℕ → String → Observation Fixed
purchase id ref_text = row id ref_text "filing.form4" "AAPL" (("is_purchase", boolean true) ∷ [])

abbrev held : Observation Fixed
held = row 5 "d" "sleeve.insider_position" "MSFT" (
    ("status", text "open")
    ∷ ("entry_price", number (whole 20))
    ∷ ("exit_by", text "1970-01-01")
    ∷ ("n_buys", integer 3)
    ∷ [])

abbrev store : Store Fixed
store =
    (1, purchase 1 "a")
    ∷ (2, purchase 2 "b")
    ∷ (3, purchase 3 "c")
    ∷ (4, row 4 "e" "price.ohlcv" "AAPL" (("close", number (whole 10)) ∷ []))
    ∷ (5, held)
    ∷ []

abbrev position : InsiderSleevePosition Fixed
position = record { symbol = "MSFT"; entry_price = whole 20; exit_by = 90; n_buys = 3 }

owned : active_insider_positions texts store 100 ≡ ok (("MSFT", position) ∷ [])
unfolding active_insider_positions open_positions position_of latest_by_symbol as_of visible
    sort_observations sort_by insert_sorted collapse_latest_revisions collapse_from keep_latest
    to_utc_lenient
owned = refl

abbrev after : PassState Fixed
after = decide settings texts env ("AAPL" ∷ []) (some (cents 3)) store (("MSFT", position) ∷ [])

run_insider_sleeve_cycle-Routed_example :
    IsPass settings texts env ("AAPL" ∷ []) (some (cents 3)) store (("MSFT", position) ∷ []) after
    × Routed broker env
        (IsOwn after)
        account
        (run_insider_sleeve_cycle broker settings texts env
          ("AAPL" ∷ [])
          (some (cents 3))
          store
          account).2
run_insider_sleeve_cycle-Routed_example =
    run_insider_sleeve_cycle-Routed broker settings texts env ("AAPL" ∷ []) (some (cents 3)) store
      account owned
