-- ===== src/Runtime/Cycle/Pass.antt =====
-- `run_paper_cycle`: cancel, score, choose, trade.
use market_trader.Prelude.{
  String, not, ◌&&◌, Option, none, some, List, [], ◌∷◌, filter, Result, ok, err, if◌then◌else◌,
}
use market_trader.Prelude.Eq.{string_eq}
use market_trader.Prelude.Dict.{Dict}
use market_trader.Float.{Float}
use market_trader.Config.{Settings}
use market_trader.Core.Time.{Instant}
use market_trader.Storage.Bitemporal.{Store}
use market_trader.Portfolio.Risk.{Weights, RiskLimits}
use market_trader.Portfolio.Sizing.{Numerics}
use market_trader.Execution.Broker.{Broker, Order, Position}
use market_trader.Execution.Engine.{Env, TradingError, broker_failed}
use market_trader.Execution.Engine.Restore.{new_engine}
use market_trader.Execution.Engine.Rebalance.{rebalance}
use market_trader.Runtime.Cycle.Weighting.{Matrix}
use market_trader.Runtime.Cycle.Predictions.{log_cycle_predictions}
use market_trader.Runtime.Cycle.Target.{
  Options, is_free, is_empty, ranked_scores, own_positions, symbols_held, stopped_names, book_of,
  flatten,
}

pub record CycleResult (F : Type 0) : Type 0 where
  pub at : Instant
  pub scores : Dict String F
  pub target_weights : Weights F
  pub orders : List (Order F)
  pub brief : Option String

-- What leaves the cycle: an exception of the broker or the engine, or of the model's provider.
pub data CycleError (F : Type 0) : Type 0 where
  trading : TradingError F → CycleError F
  no_brief : String → CycleError F

module _ {F B : Type 0} ⦃f : Float F⦄ (broker : Broker F B) where
  -- `for o in stale: broker.cancel_order(o.client_order_id)`
  unfoldable pub cancel_all : List (Order F) → B → Result (TradingError F) (Unit {0}) × B
  cancel_all [] b = (ok tt, b)
  cancel_all (o ∷ os) b =
      let c = broker.cancel_order o.client_order_id b in
      let rest = cancel_all os c.1 in
      elim c.0 [ err e ↦ (err (broker_failed e), c.1) | ok u ↦ rest ]

  unfoldable pub cancel_stale : Options F → B → Result (TradingError F) (Unit {0}) × B
  cancel_stale options b =
      if options.cancel_stale_orders
      then elim (broker.get_open_orders b) [
        | err e ↦ (err (broker_failed e), b)
        | ok orders ↦
            cancel_all (filter (λ (o : Order F). is_free options.reserved_symbols o.symbol) orders)
              b
      ]
      else (ok tt, b)

module _ {F B : Type 0} ⦃f : Float F⦄ (broker : Broker F B) (np : Numerics F) (env : Env)
    (settings : Settings F) (limits : RiskLimits F) (options : Options F) where
  -- `engine.rebalance(...)` of a new engine whose audit store is the store, if there is a target.
  unfoldable pub execute :
      Weights F
      → Dict String F
      → Store F
      → B
      → Result (TradingError F) (List (Order F)) × Store F × B
  execute [] prices s b = (ok [], s, b)
  execute (w ∷ ws) prices s b =
      let r =
        rebalance broker env (w ∷ ws) prices (new_engine env.now b settings limits (some s)) in
      (r.0, (elim r.1.audit_store [ none ↦ s | some s' ↦ s' ]), r.1.broker)

  -- The briefing, after the orders.
  unfoldable pub with_brief : CycleResult F → Store F → Result (CycleError F) (CycleResult F)
  with_brief result s = elim options.brief [
    | none ↦ ok result
    | some ask ↦ elim (ask s env.as_of) [
      | err e ↦ err (no_brief e)
      | ok t ↦ ok (record result { brief = some t })
    ]
  ]

  -- The rest of the cycle, from the positions that are not reserved.
  unfoldable pub after_positions :
      Matrix F
      → Dict String F
      → Dict String F
      → List (Position F)
      → Store F
      → B
      → Result (CycleError F) (CycleResult F) × Store F × B
  after_positions matrix ranked prices positions s b =
      let held = symbols_held positions in
      let stopped = stopped_names np settings limits options s env.as_of positions prices in
      let target = book_of np settings limits options s env.as_of matrix ranked held stopped in
      let r = execute (flatten np settings limits options held prices target) prices s b in
      elim r.0 [
        | err e ↦ (err (trading e), r.1, r.2)
        | ok orders ↦ (
          with_brief
              (record {
                at = env.as_of;
                scores = ranked;
                target_weights = target;
                orders = orders;
                brief = none;
              })
              r.1,
          r.1,
          r.2,
        )
      ]

  -- The result, the store and the broker.
  unfoldable pub run_paper_cycle :
      List String
      → Dict String F
      → Store F
      → B
      → Result (CycleError F) (CycleResult F) × Store F × B
  run_paper_cycle symbols prices s b =
      let c = cancel_stale broker options b in
      let matrix = options.compute_matrix s env.as_of symbols in
      let ranked = ranked_scores options matrix env.as_of in
      let logged =
        if options.prediction_log && not (is_empty matrix)
        then log_cycle_predictions env ranked matrix options.model_version
            options.prediction_horizon s
        else s in
      elim c.0 [
        | err e ↦ (err (trading e), s, c.1)
        | ok u ↦ elim (broker.get_positions c.1) [
          | err e ↦ (err (trading (broker_failed e)), logged, c.1)
          | ok positions ↦
              after_positions matrix ranked prices
                (own_positions options.reserved_symbols positions) logged c.1
        ]
      ]
