-- ===== src/Runtime/Cycle/Tests.antt =====
-- A cycle over two names, with a holding that fell by half and a name that a sleeve owns.
use market_trader.Prelude.{ok, ◌≢◌, String, ◌≡◌, refl, true, none, some, [], ◌∷◌, inl, map}
use market_trader.Prelude.Eq.{string_eq}
use market_trader.Prelude.Sort.{sort_by, insert_sorted}
use market_trader.Prelude.Dict.{Dict, lookup}
use market_trader.Float.{nought}
use market_trader.Float.Fixed.{Fixed, whole, cents, fixed_float}
use market_trader.Core.Time.{to_utc_lenient}
use market_trader.Core.Schema.{number, text}
use market_trader.Storage.Bitemporal.{
  Store, as_of, visible, sort_observations, collapse_latest_revisions, collapse_from, keep_latest,
}
use market_trader.Runtime.Sleeve.Fixture.{texts, row}
use market_trader.Runtime.NewsSleeve.Positions.{
  SleevePosition, active_sleeve_positions, latest_by_symbol, open_positions, position_of,
}
use market_trader.Runtime.InsiderSleeve.Positions as InsiderSleeve
use market_trader.Runtime.InsiderSleeve.Positions.{active_insider_positions}
use market_trader.Runtime.Cycle.Live.{reserved_names, run_live_paper_cycle}
use market_trader.Runtime.Cycle.Spares.{IsSequel, run_live_paper_cycle-Spares}
use market_trader.Execution.PaperBroker.{PaperBroker, cancel_order, get_open_orders}
use market_trader.Execution.Broker.{Position, Order, market_order, buy, limit, accepted}
use market_trader.Execution.Engine.Fixture.{broker, env, settings, limits, account}
use market_trader.Portfolio.Sizing.{Numerics}
use market_trader.Runtime.Sleeve.{is_in}
use market_trader.Runtime.Sleeve.Routed.{Routed}
use market_trader.Runtime.Cycle.Weighting.{Matrix}
use market_trader.Runtime.Cycle.Target.{Options, symbols_held, stopped_names, book_of, flatten}
use market_trader.Runtime.Cycle.Pass.{cancel_all, cancel_stale, run_paper_cycle}
use market_trader.Runtime.Cycle.Flatten.{stopped-flat}
use market_trader.Runtime.Cycle.Cancelled.{Cleared}
use market_trader.Runtime.Cycle.Live.{daily}
use market_trader.Runtime.Cycle.Traded.{IsFree, IsReserved, run_paper_cycle-Routed}

abbrev numerics : Numerics Fixed
numerics = record {
  pct_change = λ column. map (λ c. some (whole 0)) column;
  annual_vol = λ window w. cents 20;
  std = λ xs. whole 1;
  exp = λ x. whole 1;
  int = λ x. 1;
  round_int = λ x. 1;
}

abbrev matrix : Matrix Fixed
matrix =
    ("AAPL", ("momentum", some (whole 2)) ∷ []) ∷ ("MSFT", ("momentum", some (whole 1)) ∷ []) ∷ []

abbrev options : Options Fixed
options = record {
  compute_matrix = λ s at symbols. matrix;
  score_fn = λ m at. ("AAPL", some (whole 2)) ∷ ("MSFT", some (whole 1)) ∷ [];
  brief = none;
  top_quantile = cents 30;
  max_positions = some 2;
  exit_band_multiple = whole 1;
  risk_weighting = "equal";
  tilt_strength = whole 0;
  prediction_log = true;
  model_version = "composite";
  prediction_horizon = 5;
  stop_loss_pct = cents 5;
  trailing_stop_pct = whole 0;
  thesis_exit_threshold = whole 0;
  reserved_symbols = "MSFT" ∷ [];
  cancel_stale_orders = true;
}

abbrev prices : Dict String Fixed
prices = ("AAPL", whole 10) ∷ ("MSFT", whole 20) ∷ []

-- Two orders that rest, one of them for the sleeve's name.
abbrev waiting : String → String → Order Fixed
waiting id symbol = record (market_order id symbol buy (whole 1)) {
  order_type = limit;
  limit_price = some (whole 1);
  status = accepted;
}

abbrev crowded : PaperBroker Fixed
crowded = record account { orders = ("x", waiting "x" "AAPL") ∷ ("y", waiting "y" "MSFT") ∷ [] }

spares_msft : get_open_orders (cancel_stale broker options crowded).1 ≡ waiting "y" "MSFT" ∷ []
unfolding cancel_stale cancel_all cancel_order get_open_orders
spares_msft = refl

run_paper_cycle-Routed_example :
    (b1 : PaperBroker Fixed) × Cleared broker true
      (IsFree broker numerics env settings limits options)
      (IsReserved broker numerics env settings limits options)
      crowded
      b1
    × Routed broker env
        (IsFree broker numerics env settings limits options)
        b1
        (run_paper_cycle broker numerics env settings limits options
          ("AAPL" ∷ "MSFT" ∷ [])
          prices
          []
          crowded).2
run_paper_cycle-Routed_example =
    run_paper_cycle-Routed broker numerics env settings limits options ("AAPL" ∷ "MSFT" ∷ []) prices
      [] crowded

abbrev fallen : Position Fixed
fallen = record {
  symbol = "AAPL";
  qty = whole 5;
  avg_price = whole 20;
  market_value = whole 50;
  unrealized_pl = whole 0;
}

stopped-flat_example :
    lookup "AAPL" (
      flatten numerics settings limits options (symbols_held (fallen ∷ [])) prices (
        book_of numerics settings limits options [] 100 matrix
          (("AAPL", whole 2) ∷ [])
          (symbols_held (fallen ∷ []))
          (stopped_names numerics settings limits options [] 100 (fallen ∷ []) prices)))
    ≡ some nought
stopped-flat_example =
    stopped-flat numerics settings limits options [] 100 matrix (("AAPL", whole 2) ∷ [])
      (fallen ∷ []) prices fallen (whole 10) (inl refl) refl refl refl refl refl refl

-- The news sleeve owns MSFT.
abbrev store : Store Fixed
store =
    (
      5,
      row 5 "d" "sleeve.news_position" "MSFT" (
          ("status", text "open")
          ∷ ("entry_price", number (whole 20))
          ∷ ("exit_by", text "1970-01-01")
          ∷ ("story_hash", text "old")
          ∷ []),
    )
    ∷ []

abbrev position : SleevePosition Fixed
position = record { symbol = "MSFT"; entry_price = whole 20; exit_by = 90; story_hash = "old" }

owned : active_sleeve_positions texts store 100 ≡ ok (("MSFT", position) ∷ [])
unfolding active_sleeve_positions open_positions position_of latest_by_symbol as_of visible
    sort_observations sort_by insert_sorted collapse_latest_revisions collapse_from keep_latest
    to_utc_lenient
owned = refl

reserves : reserved_names settings texts store 100 ≡ ok ("MSFT" ∷ [])
unfolding reserved_names active_sleeve_positions open_positions position_of latest_by_symbol as_of
    visible sort_observations sort_by insert_sorted collapse_latest_revisions collapse_from
    keep_latest to_utc_lenient active_insider_positions InsiderSleeve.open_positions
    InsiderSleeve.latest_by_symbol
reserves = refl

run_live_paper_cycle-Spares_example :
    let r =
      daily broker numerics env settings texts options
        ("MSFT" ∷ [])
        ("AAPL" ∷ "MSFT" ∷ [])
        prices
        store
        account in
    (b1 : PaperBroker Fixed) × Cleared broker true
      (λ m. m ≢ "MSFT")
      (λ m. is_in m ("MSFT" ∷ []) ≡ true)
      account
      b1
    × Routed broker env (λ m. m ≢ "MSFT") b1 r.2
    × IsSequel broker numerics env settings texts options
        ("AAPL" ∷ [])
        (λ s. none)
        r
        (run_live_paper_cycle broker numerics env settings texts options
          ("AAPL" ∷ "MSFT" ∷ [])
          prices
          ("AAPL" ∷ [])
          (λ s. none)
          store
          account).2
run_live_paper_cycle-Spares_example =
    run_live_paper_cycle-Spares broker numerics env settings texts options ("AAPL" ∷ "MSFT" ∷ [])
      prices ("AAPL" ∷ []) (λ s. none) store account "MSFT" reserves
      (inl (refl, ("MSFT", position) ∷ [], owned, inl refl))
