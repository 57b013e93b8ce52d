-- ===== src/Execution/Engine/Gates.antt =====
-- The gates of `rebalance`: live trading, the kill switch, the drawdown breaker, the daily loss and
-- the risk limits.
use market_trader.Prelude.{
  String, Bool, not, ◌&&◌, Option, none, some, [], ◌∷◌, Result, ok, err, filter, if◌then◌else◌,
  ◌>>◌,
}
use market_trader.Prelude.Eq.{◌==◌, string_eq}
use market_trader.Float.{Float, nought, one}
use market_trader.Config.{Settings, is_live, assert_live_allowed}
use market_trader.Core.Schema.{Value, number, text}
use market_trader.Portfolio.Risk.{Weights, RiskLimits, Breach, check_order, update}
use market_trader.Execution.Broker.{Account}
use market_trader.Execution.Guardrails.{engage}
use market_trader.Execution.Engine.State.{
  Env, Engine, engaged, TradingError, live_gate, halted, audit, portfolio_entity,
  save_drawdown_state,
}

abbrev pub reason_or : Option String → String
reason_or none = "engaged"
reason_or (some r) = if r == "" then "engaged" else r

abbrev pub number_or_null : {F : Type 0} → Option F → Value F
number_or_null none = Value.null
number_or_null (some x) = number x

module _ {F : Type 0} ⦃f : Float F⦄ where
  -- The loop over the targets: each is checked against the others.
  unfoldable pub check_targets : Weights F → Weights F → RiskLimits F → Result (Breach F) (Unit {0})
  check_targets [] target_weights limits = ok tt
  check_targets ((symbol, weight) ∷ rest) target_weights limits =
      let later = check_targets rest target_weights limits in
      check_order symbol weight (filter (λ kv. not (kv.0 == symbol)) target_weights) limits >> later

  -- `account.equity / account.last_equity - 1.0`
  abbrev pub day_return : Account F → F
  day_return account = f.sub (f.div account.equity account.last_equity) one

  abbrev pub is_daily_loss : Settings F → Account F → Bool
  is_daily_loss settings account =
      f.lt nought settings.max_daily_loss
      && f.lt nought account.last_equity
      && f.le (day_return account) (f.neg settings.max_daily_loss)

module _ {F B : Type 0} where
  abbrev pub live_and_kill_gate : Engine F B → Result (TradingError F) (Unit {0})
  live_and_kill_gate e =
      let kill : Result (TradingError F) (Unit {0}) =
        if e.kill_switch.engaged
        then err (halted (engaged (reason_or e.kill_switch.reason)))
        else ok tt in
      if is_live e.settings.execution_mode
      then elim (assert_live_allowed e.settings) [ err x ↦ err (live_gate x) | ok t ↦ kill ]
      else kill

module _ {F B : Type 0} ⦃f : Float F⦄ where
  -- `self.breaker.update(...)` and `self._save_drawdown_state(...)`
  unfoldable pub observe_equity : Env → Account F → Engine F B → Engine F B
  observe_equity env account e =
      save_drawdown_state env (record e { breaker = update account.equity e.breaker })

  unfoldable pub halt_on_drawdown : Env → Engine F B → Engine F B
  halt_on_drawdown env e =
      audit env portfolio_entity "halt"
        (("reason", text "drawdown") ∷ ("peak", number_or_null e.breaker.peak) ∷ [])
        (record e { kill_switch = engage "drawdown_circuit_breaker" e.kill_switch })

  unfoldable pub halt_on_daily_loss : Env → Account F → Engine F B → Engine F B
  halt_on_daily_loss env account e =
      audit env portfolio_entity "halt"
        (("reason", text "daily_loss")
          ∷ ("day_return", number (f.round (day_return account) 4))
          ∷ [])
        (record e { kill_switch = engage "daily_loss_limit" e.kill_switch })
