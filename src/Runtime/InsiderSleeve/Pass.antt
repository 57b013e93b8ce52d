-- ===== src/Runtime/InsiderSleeve/Pass.antt =====
-- `run_insider_sleeve_cycle`; `universe` is the resolved universe, and `gate` the mean drift of insider
-- clusters if the study found it significant.
use market_trader.Prelude.{
  ℕ, ◌-◌, String, Bool, not, ◌||◌, Option, none, some, List, [], ◌∷◌, ◌++◌, Result, ok, err, filter,
  length, leb, if◌then◌else◌,
}
use market_trader.Prelude.Eq.{string_eq}
use market_trader.Prelude.Dict.{Dict, lookup, insert, keys}
use market_trader.Float.{Float, nought, one, fmin, fmax, truthy}
use market_trader.Config.{Settings}
use market_trader.Core.Time.{Instant}
use market_trader.Storage.Bitemporal.{Store}
use market_trader.Portfolio.Risk.{RiskLimits}
use market_trader.Execution.Broker.{Broker, Order}
use market_trader.Execution.Engine.{Env}
use market_trader.Feedback.PredictionLog.{PredictionRecord, log_predictions}
use market_trader.Runtime.InsiderEvents.{SleeveEntry, insider_cluster_entries}
use market_trader.Runtime.Sleeve.{
  PassState, is_in, Texts, SleeveError, bad_state, engine_raised, latest_prices, is_stopped,
  execute_target,
}
use market_trader.Runtime.InsiderSleeve.Positions.{
  InsiderSleevePosition, active_insider_positions, record_open, record_close,
}

pub record InsiderSleeveResult (F : Type 0) : Type 0 where
  pub at : Instant
  pub opened : List String
  pub closed : List String
  pub orders : List (Order F)

module _ {F : Type 0} ⦃f : Float F⦄ (settings : Settings F) (texts : Texts) (env : Env)
    (prices : Dict String F) where
  abbrev pub close_one : String → Bool → PassState F → PassState F
  close_one symbol stopped s = record s {
    target = insert symbol nought s.target;
    closed = s.closed ++ symbol ∷ [];
    store = record_close texts env symbol (if stopped then "stop" else "horizon") s.store;
  }

  -- The loop that closes what is past its time or stopped out.
  unfoldable pub close_all : Dict String (InsiderSleevePosition F) → PassState F → PassState F
  close_all [] s = s
  close_all ((symbol, p) ∷ rest) s =
      let stopped = is_stopped settings (lookup symbol prices) p.entry_price in
      close_all rest (if leb p.exit_by env.as_of || stopped then close_one symbol stopped s else s)

  -- `settings.insider_sleeve_budget / max(settings.insider_sleeve_max_names, 1)`
  abbrev pub per_name : F
  per_name =
      let n = settings.insider_sleeve_max_names in
      f.div settings.insider_sleeve_budget (f.lit (if leb n 1 then 1 else n) 0)

  -- The prediction that is logged of an entry.
  unfoldable pub prediction_of : SleeveEntry F → PredictionRecord F
  prediction_of e = record {
    as_of = env.as_of;
    symbol = e.symbol;
    probability = fmin one (fmax nought (f.mul e.expected_car (f.lit 10 0)));
    horizon_days = settings.insider_sleeve_hold_days;
    model_version = "insider_sleeve";
    features = ("n_buys", f.lit e.buys 0) ∷ ("expected_car", e.expected_car) ∷ [];
  }

  -- What opening does at a price.
  abbrev pub open_at : SleeveEntry F → F → PassState F → PassState F
  open_at e price s = record s {
    target = insert e.symbol per_name s.target;
    opened = s.opened ++ e.symbol ∷ [];
    store =
        (log_predictions env.identity env.now (prediction_of e ∷ [])
          (record_open texts env e.symbol price e.exit_by e.buys s.store)).1;
  }

  -- The body of the opening loop: an entry without a tradable price is skipped.
  unfoldable pub open_one : SleeveEntry F → PassState F → PassState F
  open_one e s = elim (lookup e.symbol prices) [
    | none ↦ s
    | some price ↦ if truthy price then open_at e price s else s
  ]

  unfoldable pub open_all : List (SleeveEntry F) → PassState F → PassState F
  open_all [] s = s
  open_all (e ∷ es) s = open_all es (open_one e s)

  -- `max(0, settings.insider_sleeve_max_names - len(live))`
  abbrev pub free_slots : List String → ℕ
  free_slots live = settings.insider_sleeve_max_names - length live

  -- The entries of this pass, none of them if no slot is free.
  unfoldable pub entries_for : Option F → List String → Store F → List (SleeveEntry F)
  entries_for gate live s =
      if leb (free_slots live) 0
      then []
      else insider_cluster_entries env.as_of gate settings.insider_sleeve_hold_days
          (free_slots live) 5 3 30 live s

module _ {F : Type 0} ⦃f : Float F⦄ (settings : Settings F) (texts : Texts) (env : Env) where
  abbrev pub prices_for :
      List String → Store F → Dict String (InsiderSleevePosition F) → Dict String F
  prices_for universe s active = latest_prices s env.as_of (universe ++ keys active)

  -- The state after the closing loop, with the names that stay.
  unfoldable pub closing :
      List String → Store F → Dict String (InsiderSleevePosition F) → PassState F
  closing universe s active =
      let c =
        close_all settings texts env (prices_for universe s active) active
          (record { target = []; opened = []; closed = []; live = []; store = s }) in
      record c { live = filter (λ n. not (is_in n c.closed)) (keys active) }

  -- Both loops, from the positions that are active.
  unfoldable pub decide :
      List String → Option F → Store F → Dict String (InsiderSleevePosition F) → PassState F
  decide universe gate s active =
      let prices = prices_for universe s active in
      let c = closing universe s active in
      open_all settings texts env prices (entries_for settings texts env prices gate c.live c.store)
        c

  -- `RiskLimits(...)`; the sector limit has its default.
  abbrev pub sleeve_limits : RiskLimits F
  sleeve_limits = record {
    max_position_weight = settings.max_position_weight;
    max_gross_exposure = settings.max_gross_exposure;
    max_net_exposure = settings.max_net_exposure;
    max_sector_weight = f.lit 30 2;
  }

module _ {F B : Type 0} ⦃f : Float F⦄ (broker : Broker F B) (settings : Settings F) (texts : Texts)
    (env : Env) where
  -- The result, the store and the broker.
  unfoldable pub run_insider_sleeve_cycle :
      List String
      → Option F
      → Store F
      → B
      → Result (SleeveError F) (InsiderSleeveResult F) × Store F × B
  run_insider_sleeve_cycle universe gate s b = elim (active_insider_positions texts s env.as_of) [
    | err e ↦ (err (bad_state e), s, b)
    | ok active ↦
        let d = decide settings texts env universe gate s active in
        let prices = prices_for settings texts env universe s active in
        let r =
          execute_target broker env settings (sleeve_limits settings texts env) d.target prices b in
        elim r.0 [
          | err e ↦ (err (engine_raised e), d.store, r.1)
          | ok orders ↦ (
            ok (record { at = env.as_of; opened = d.opened; closed = d.closed; orders = orders }),
            d.store,
            r.1,
          )
        ]
  ]
