-- ===== src/Execution/Engine/Refused.antt =====
-- What is left of the engine when a rebalance raises, and what holds when it returns.
use market_trader.Prelude.{
  result_cases, String, ◌≡◌, true, false, not, ◌||◌, List, [], ◌∷◌, arith, All, ok, err, filter,
  inl, inr,
}
use market_trader.Prelude.Eq.{◌==◌, string_eq}
use market_trader.Prelude.Dict.{Dict}
use market_trader.Float.{Float}
use market_trader.Config.{is_live, assert_live_allowed}
use market_trader.Core.Schema.{Value}
use market_trader.Portfolio.Risk.{Weights, RiskLimits, check_order, update}
use market_trader.Execution.Broker.{Broker, Account, Order}
use market_trader.Execution.Guardrails.{engage}
use market_trader.Execution.Engine.State.{Env, Engine, TradingError, audit, save_drawdown_state}
use market_trader.Execution.Engine.Gates.{
  check_targets, is_daily_loss, live_and_kill_gate, observe_equity, halt_on_drawdown,
  halt_on_daily_loss,
}
use market_trader.Execution.Engine.Rebalance.{trade, after_observe, rebalance}

module _ {F B : Type 0} where
  -- All but the audit store and the kill switch and breaker.
  pub record SameTrading (e e' : Engine F B) : Type 0 where
    pub broker : e'.broker ≡ e.broker
    pub settings : e'.settings ≡ e.settings
    pub limits : e'.limits ≡ e.limits
    pub rate_limiter : e'.rate_limiter ≡ e.rate_limiter

  -- An audit entry changes nothing but the store.
  pub record SameGuards (e e' : Engine F B) : Type 0 where
    pub trading : SameTrading e e'
    pub kill_switch : e'.kill_switch ≡ e.kill_switch
    pub breaker : e'.breaker ≡ e.breaker

  pub audit-SameGuards :
      (env : Env) (symbol event : String) (d : Dict String (Value F)) (e : Engine F B)
      → SameGuards e (audit env symbol event d e)
  unfolding audit
  audit-SameGuards env symbol event d e = ground arith

  save-SameGuards : (env : Env) (e : Engine F B) → SameGuards e (save_drawdown_state env e)
  unfolding save_drawdown_state
  save-SameGuards env e = ground arith

module _ {F B : Type 0} ⦃f : Float F⦄ where
  pub halt_on_drawdown-SameTrading :
      (env : Env) (e : Engine F B)
      → SameTrading e (halt_on_drawdown env e)
        × ((halt_on_drawdown env e).kill_switch ≡ engage "drawdown_circuit_breaker" e.kill_switch)
  unfolding halt_on_drawdown audit
  halt_on_drawdown-SameTrading env e = ground arith

  pub halt_on_daily_loss-SameTrading :
      (env : Env) (account : Account F) (e : Engine F B)
      → SameTrading e (halt_on_daily_loss env account e)
        × ((halt_on_daily_loss env account e).kill_switch ≡ engage "daily_loss_limit" e.kill_switch)
  unfolding halt_on_daily_loss audit
  halt_on_daily_loss-SameTrading env account e = ground arith

  pub observe_equity-SameTrading :
      (env : Env) (account : Account F) (e : Engine F B)
      → SameTrading e (observe_equity env account e)
        × ((observe_equity env account e).kill_switch ≡ e.kill_switch)
        × ((observe_equity env account e).breaker ≡ update account.equity e.breaker)
  unfolding observe_equity save_drawdown_state
  observe_equity-SameTrading env account e = ground arith

module _ {F B : Type 0} where
  gate_open :
      (e : Engine F B)
      → live_and_kill_gate e ≡ ok tt
      → (not (is_live e.settings.execution_mode) || e.settings.live_trading_enabled ≡ true)
        × (e.kill_switch.engaged ≡ false)
  unfolding assert_live_allowed
  gate_open e h = ground arith

module _ {F B : Type 0} ⦃f : Float F⦄ (broker : Broker F B) (env : Env) where
  trade_refused :
      (tw : Weights F) (prices : Dict String F) (account : Account F) (e : Engine F B)
      {x : TradingError F} {e' : Engine F B}
      → trade broker env tw prices account e ≡ (err x, e')
      → e' ≡ e
  unfolding trade
  trade_refused tw prices account e h = ground arith

  after_observe_refused :
      (tw : Weights F) (prices : Dict String F) (account : Account F) (e : Engine F B)
      {x : TradingError F} {e' : Engine F B}
      → after_observe broker env tw prices account e ≡ (err x, e')
      → SameTrading e e'
  unfolding after_observe
  after_observe_refused tw prices account e {x} {e'} h = ground (
    arith,
    halt_on_drawdown-SameTrading env e,
    halt_on_daily_loss-SameTrading env account e,
    trade_refused tw prices account e {x = x} {e' = e'},
  )

  -- A rebalance that raises, at whichever gate or query, has sent no order and used up no allowance.
  pub rebalance_refused :
      (tw : Weights F) (prices : Dict String F) (e : Engine F B) {x : TradingError F}
      {e' : Engine F B}
      → rebalance broker env tw prices e ≡ (err x, e')
      → (e'.broker ≡ e.broker) × (e'.rate_limiter ≡ e.rate_limiter)
  unfolding rebalance
  rebalance_refused tw prices e {x} {e'} h = elim (result_cases (live_and_kill_gate e)) [
    | inl (y, g) ↦ ground arith
    | inr g ↦ elim (result_cases (broker.get_account e.broker)) [
      | inl (y, a) ↦ ground arith
      | inr (account, a) ↦
          let seen = observe_equity env account e in
          ground (
            arith,
            observe_equity-SameTrading env account e,
            after_observe_refused tw prices account seen {x = x} {e' = e'},
          )
    ]
  ]

  -- What every rebalance that returns has been through.
  pub record Passed (tw : Weights F) (e : Engine F B) (account : Account F) : Type 0 where
    pub armed : not (is_live e.settings.execution_mode) || e.settings.live_trading_enabled ≡ true
    pub not_killed : e.kill_switch.engaged ≡ false
    pub queried : broker.get_account e.broker ≡ ok account
    pub no_drawdown : (update account.equity e.breaker).tripped ≡ false
    pub no_daily_loss : is_daily_loss e.settings account ≡ false
    pub within_limits :
        All
          (λ kv.
            check_order kv.0 kv.1 (filter (λ other. not (other.0 == kv.0)) tw) e.limits ≡ ok tt)
          tw

  check_targets-All :
      (ws tw : Weights F) (limits : RiskLimits F)
      → check_targets ws tw limits ≡ ok tt
      → All
          (λ kv. check_order kv.0 kv.1 (filter (λ other. not (other.0 == kv.0)) tw) limits ≡ ok tt)
          ws
  unfolding check_targets
  check_targets-All [] tw limits h = tt
  check_targets-All ((k, w) ∷ ws) tw limits h =
      let c = check_order k w (filter (λ other. not (other.0 == k)) tw) limits in
      elim (result_cases c) [
        | inl (x, g) ↦ absurd (cc)
        | inr (t, g) ↦ (g, check_targets-All ws tw limits (rw g at h))
      ]

  trade_passed :
      (tw : Weights F) (prices : Dict String F) (account : Account F) (e : Engine F B)
      {orders : List (Order F)} {e' : Engine F B}
      → trade broker env tw prices account e ≡ (ok orders, e')
      → check_targets tw tw e.limits ≡ ok tt
  unfolding trade
  trade_passed tw prices account e h = elim (result_cases (check_targets tw tw e.limits)) [
    | inl (x, g) ↦ absurd (ground arith)
    | inr (t, g) ↦ g
  ]

  after_observe_passed :
      (tw : Weights F) (prices : Dict String F) (account : Account F) (e : Engine F B)
      {orders : List (Order F)} {e' : Engine F B}
      → after_observe broker env tw prices account e ≡ (ok orders, e')
      → (e.breaker.tripped ≡ false)
        × (is_daily_loss e.settings account ≡ false)
        × (check_targets tw tw e.limits ≡ ok tt)
  unfolding after_observe
  after_observe_passed tw prices account e {orders} {e'} h =
      ground (arith, trade_passed tw prices account e {orders = orders} {e' = e'})

  -- A rebalance that returns has passed every gate: live trading is
  -- armed if the mode is live, the kill switch is off, the account was read, its equity trips neither
  -- the drawdown breaker nor the daily loss, and every target passes the risk limits beside the others.
  pub rebalance-Passed :
      (tw : Weights F) (prices : Dict String F) (e : Engine F B) {orders : List (Order F)}
      {e' : Engine F B}
      → rebalance broker env tw prices e ≡ (ok orders, e')
      → (account : Account F) × Passed tw e account
  unfolding rebalance
  rebalance-Passed tw prices e {orders} {e'} h = elim (result_cases (live_and_kill_gate e)) [
    | inl (y, g) ↦ absurd (ground arith)
    | inr g ↦ elim (result_cases (broker.get_account e.broker)) [
      | inl (y, a) ↦ absurd (ground arith)
      | inr (account, a) ↦
          let seen = observe_equity env account e in
          let same = observe_equity-SameTrading env account e in
          let passed =
            after_observe_passed tw prices account seen {orders = orders} {e' = e'}
              (ground arith) in
          (
            account,
            record {
              armed = (gate_open e (ground arith)).0;
              not_killed = (gate_open e (ground arith)).1;
              queried = a;
              no_drawdown = ground (arith, same, passed.0);
              no_daily_loss = ground (arith, same, passed.1);
              within_limits = check_targets-All tw tw e.limits (ground (arith, same, passed.2));
            },
          )
    ]
  ]
