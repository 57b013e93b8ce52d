-- ===== src/Runtime/Cycle/Live.antt =====
-- `run_live_paper_cycle`, after the data were ingested and the client was made: the sleeves' names are
-- reserved, the daily cycle runs, then the insider sleeve. What the study calls significant is `gate`.
use market_trader.Prelude.{String, true, Option, List, [], ◌++◌, Result, ok, err, if◌then◌else◌}
use market_trader.Prelude.Eq.{string_eq}
use market_trader.Prelude.Dict.{Dict, keys}
use market_trader.Float.{Float, nought, one}
use market_trader.Config.{Settings}
use market_trader.Core.Time.{Instant}
use market_trader.Storage.Bitemporal.{Store}
use market_trader.Portfolio.Risk.{RiskLimits}
use market_trader.Portfolio.Sizing.{Numerics}
use market_trader.Execution.Broker.{Broker}
use market_trader.Execution.Engine.{Env}
use market_trader.Runtime.Sleeve.{Texts, StateError}
use market_trader.Runtime.NewsSleeve.Positions.{active_sleeve_positions}
use market_trader.Runtime.InsiderSleeve.Positions.{active_insider_positions}
use market_trader.Runtime.InsiderSleeve.Pass.{run_insider_sleeve_cycle}
use market_trader.Runtime.Cycle.Target.{Options, limits_from_settings}
use market_trader.Runtime.Cycle.Pass.{CycleResult, CycleError, run_paper_cycle}

-- What leaves the live cycle: a sleeve's state that cannot be read, or an exception of the cycle.
pub data LiveError (F : Type 0) : Type 0 where
  bad_sleeve : StateError → LiveError F
  in_cycle : CycleError F → LiveError F

module _ {F : Type 0} ⦃f : Float F⦄ (settings : Settings F) (texts : Texts) where
  abbrev pub news_names : Store F → Instant → Result StateError (List String)
  news_names s at =
      if settings.news_sleeve_enabled
      then elim (active_sleeve_positions texts s at) [
        | err e ↦ err e
        | ok active ↦ ok (keys active)
      ]
      else ok []

  abbrev pub insider_names : Store F → Instant → Result StateError (List String)
  insider_names s at =
      if settings.insider_sleeve_enabled
      then elim (active_insider_positions texts s at) [
        | err e ↦ err e
        | ok active ↦ ok (keys active)
      ]
      else ok []

  -- `reserved`
  unfoldable pub reserved_names : Store F → Instant → Result StateError (List String)
  reserved_names s at = elim (news_names s at) [
    | err e ↦ err e
    | ok news ↦ elim (insider_names s at) [ err e ↦ err e | ok insider ↦ ok (news ++ insider) ]
  ]

  abbrev pub sleeve_budget : F
  sleeve_budget =
      let news =
        if settings.news_sleeve_enabled then f.add nought settings.news_sleeve_budget else nought in
      if settings.insider_sleeve_enabled then f.add news settings.insider_sleeve_budget else news

  -- The limits of the daily book: its gross is shrunk by the sleeves' budgets.
  unfoldable pub daily_limits : RiskLimits F
  daily_limits =
      let base = limits_from_settings settings in
      if f.lt nought sleeve_budget
      then record base {
        max_gross_exposure = f.mul base.max_gross_exposure (f.sub one sleeve_budget);
      }
      else base

module _ {F B : Type 0} ⦃f : Float F⦄ (broker : Broker F B) (np : Numerics F) (env : Env)
    (settings : Settings F) (texts : Texts) (options : Options F) where
  -- The arguments of the daily cycle, with the reserved names.
  abbrev pub daily_options : List String → Options F
  daily_options reserved = record options {
    prediction_log = true;
    reserved_symbols = reserved;
    cancel_stale_orders = true;
  }

  abbrev pub daily :
      List String
      → List String
      → Dict String F
      → Store F
      → B
      → Result (CycleError F) (CycleResult F) × Store F × B
  daily reserved watchlist prices s b =
      run_paper_cycle broker np env settings (daily_limits settings texts) (daily_options reserved)
        watchlist prices s b

  -- The result, the store and the broker; an error of the sleeve is passed over.
  unfoldable pub run_live_paper_cycle :
      List String
      → Dict String F
      → List String
      → (Store F → Option F)
      → Store F
      → B
      → Result (LiveError F) (CycleResult F) × Store F × B
  run_live_paper_cycle watchlist prices universe gate s b =
      elim (reserved_names settings texts s env.as_of) [
        | err e ↦ (err (bad_sleeve e), s, b)
        | ok reserved ↦
            let r = daily reserved watchlist prices s b in
            let i =
              run_insider_sleeve_cycle broker settings texts env universe (gate r.1) r.1 r.2 in
            elim r.0 [
              | err e ↦ (err (in_cycle e), r.1, r.2)
              | ok result ↦
                  if settings.insider_sleeve_enabled
                  then (ok result, i.1, i.2)
                  else (ok result, r.1, r.2)
            ]
      ]
