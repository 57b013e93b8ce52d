-- ===== src/Execution/Engine/Rebalance.antt =====
-- `ExecutionEngine.rebalance` and `halt_and_flatten`.
use Prim.Native.String.{◌++◌ as append_text}
use market_trader.Prelude.{String, List, [], ◌∷◌, ◌++◌, Result, ok, err, if◌then◌else◌, length, ltb}
use market_trader.Prelude.Eq.{string_eq}
use market_trader.Prelude.Dict.{Dict}
use market_trader.Float.{Float, nought, fmin}
use market_trader.Core.Schema.{integer, text}
use market_trader.Portfolio.Risk.{Weights}
use market_trader.Execution.Broker.{Broker, Account, Order, buy, sell, Position, market_order}
use market_trader.Execution.Guardrails.{engage}
use market_trader.Execution.Engine.State.{
  Env, Engine, drawdown, daily_loss, TradingError, halted, breached, broker_failed, bad_quantity,
  audit, portfolio_entity,
}
use market_trader.Execution.Engine.Gates.{
  check_targets, day_return, is_daily_loss, live_and_kill_gate, observe_equity, halt_on_drawdown,
  halt_on_daily_loss,
}
use market_trader.Execution.Engine.Plan.{held, with_pending, plan_all, sells_first}
use market_trader.Execution.Engine.Submit.{Progress, submit_all}

module _ {F B : Type 0} ⦃f : Float F⦄ (broker : Broker F B) (env : Env) where
  abbrev pub Outcome : Type 0
  Outcome = Result (TradingError F) (List (Order F)) × Engine F B

  abbrev pub summarise : Progress F B → Outcome
  summarise s = (
    ok s.orders,
    if ltb 0 s.skipped
        then audit env portfolio_entity "rebalance_summary"
            (("placed", integer (length s.orders)) ∷ ("skipped", integer s.skipped) ∷ []) s.engine
        else s.engine,
  )

  -- From the risk checks on, for an account that passed the halts.
  unfoldable pub trade : Weights F → Dict String F → Account F → Engine F B → Outcome
  trade target_weights prices account e =
      elim (check_targets target_weights target_weights e.limits) [
        | err x ↦ (err (breached x), e)
        | ok t ↦ elim (broker.get_positions e.broker) [
          | err x ↦ (err (broker_failed x), e)
          | ok positions ↦ elim (broker.get_open_orders e.broker) [
            | err x ↦ (err (broker_failed x), e)
            | ok pending ↦
                elim (plan_all env e.settings (fmin account.equity e.settings.capital_ceiling)
                  prices (with_pending pending (held positions [])) target_weights) [
                    | err x ↦ (err (bad_quantity x), e)
                    | ok planned ↦ summarise (
                        submit_all broker env (sells_first planned)
                          (record { orders = []; skipped = 0; engine = e }))
                  ]
          ]
        ]
      ]

  -- The two halts, after the breaker has seen the equity.
  unfoldable pub after_observe : Weights F → Dict String F → Account F → Engine F B → Outcome
  after_observe target_weights prices account e =
      if e.breaker.tripped
      then (err (halted drawdown), halt_on_drawdown env e)
      else if is_daily_loss e.settings account
      then (err (halted (daily_loss (day_return account))), halt_on_daily_loss env account e)
      else trade target_weights prices account e

  unfoldable pub rebalance : Weights F → Dict String F → Engine F B → Outcome
  rebalance target_weights prices e = elim (live_and_kill_gate e) [
    | err x ↦ (err x, e)
    | ok t ↦ elim (broker.get_account e.broker) [
      | err x ↦ (err (broker_failed x), e)
      | ok account ↦ after_observe target_weights prices account (observe_equity env account e)
    ]
  ]

  abbrev pub flat_order : Position F → Order F
  flat_order p =
      market_order
        (append_text "flat-" (append_text (env.strftime env.as_of) (append_text "-" p.symbol)))
        p.symbol (if f.lt nought p.qty then sell else buy) (f.abs p.qty)

  -- The loop of `halt_and_flatten`: a `BrokerError` leaves it, with what was sent before it sent.
  unfoldable pub flatten_all : List (Position F) → List (Order F) → Engine F B → Outcome
  flatten_all [] orders e = (ok orders, e)
  flatten_all (p ∷ ps) orders e =
      let order = flat_order p in
      let (reply, b) = broker.submit_order order e.broker in
      elim reply [
        | err x ↦ (err (broker_failed x), record e { broker = b })
        | ok filled ↦ flatten_all ps (orders ++ (filled ∷ [])) (
            audit env p.symbol "flatten" (("client_order_id", text order.client_order_id) ∷ [])
              (record e { broker = b }))
      ]

  unfoldable pub halt_and_flatten : Engine F B → Outcome
  halt_and_flatten e =
      let e' : Engine F B = record e { kill_switch = engage "manual_kill" e.kill_switch } in
      elim (broker.get_positions e'.broker) [
        | err x ↦ (err (broker_failed x), e')
        | ok positions ↦ flatten_all positions [] e'
      ]
