-- ===== src/Runtime/NewsSleeve/Tests.antt =====
-- The sleeve holds MSFT past its time and reads three good articles about AAPL.
use market_trader.Prelude.{ℕ, String, [], ◌∷◌}
use market_trader.Prelude.Eq.{string_eq, nat_eq}
use market_trader.Prelude.Dict.{Dict}
use market_trader.Float.Fixed.{Fixed, whole, fixed_float}
use market_trader.Core.Schema.{Observation, number, text}
use market_trader.Storage.Bitemporal.{Store}
use market_trader.Execution.Engine.Fixture.{env, settings}
use market_trader.Runtime.Sleeve.{PassState}
use market_trader.Runtime.Sleeve.Fixture.{texts, row}
use market_trader.Runtime.Sleeve.Routed.{Routed}
use market_trader.Runtime.NewsSleeve.Positions.{SleevePosition}
use market_trader.Runtime.NewsSleeve.Pass.{decide, after_feed}

abbrev article : ℕ → String → Observation Fixed
article id url =
    row id url "news.article" "AAPL" (("tone", number (whole 5)) ∷ ("url", text url) ∷ [])

abbrev store : Store Fixed
store =
    (1, article 1 "a")
    ∷ (2, article 2 "b")
    ∷ (3, article 3 "c")
    ∷ (4, row 4 "e" "price.ohlcv" "AAPL" (("close", number (whole 10)) ∷ []))
    ∷ (
      5,
      row 5 "d" "sleeve.news_position" "MSFT" (
          ("status", text "open")
          ∷ ("entry_price", number (whole 20))
          ∷ ("exit_by", text "1970-01-01")
          ∷ ("story_hash", text "old")
          ∷ []),
    )
    ∷ []

abbrev fed : Store Fixed
fed = after_feed settings texts env [] store

abbrev position : SleevePosition Fixed
position = record { symbol = "MSFT"; entry_price = whole 20; exit_by = 90; story_hash = "old" }

abbrev active : Dict String (SleevePosition Fixed)
active = ("MSFT", position) ∷ []

abbrev after : PassState Fixed
after = decide settings texts env ("AAPL" ∷ []) fed active
