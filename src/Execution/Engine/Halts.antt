-- ===== src/Execution/Engine/Halts.antt =====
-- Rebalances after one that was halted.
use market_trader.Prelude.{result_cases, String, ◌≡◌, true, arith, ok, err, inl, inr, ◌⊎◌}
use market_trader.Prelude.Eq.{string_eq}
use market_trader.Prelude.Dict.{Dict}
use market_trader.Float.{Float}
use market_trader.Config.{assert_live_allowed}
use market_trader.Portfolio.Risk.{Weights}
use market_trader.Execution.Broker.{Broker, Account}
use market_trader.Execution.Guardrails.{engage}
use market_trader.Execution.Engine.State.{Env, Engine, Halt, engaged, TradingError, halted}
use market_trader.Execution.Engine.Gates.{live_and_kill_gate, reason_or, observe_equity}
use market_trader.Execution.Engine.Rebalance.{trade, after_observe, rebalance}
use market_trader.Execution.Engine.Refused.{
  halt_on_drawdown-SameTrading, halt_on_daily_loss-SameTrading, observe_equity-SameTrading,
}

module _ {F B : Type 0} where
  -- The refusal of an engaged kill switch, as a value.
  abbrev pub refusal : Engine F B → TradingError F
  refusal e = halted (engaged (reason_or e.kill_switch.reason))

  gate_halted :
      (e : Engine F B) {h : Halt F}
      → live_and_kill_gate e ≡ err (halted h)
      → e.kill_switch.engaged ≡ true
  unfolding assert_live_allowed
  gate_halted e r = ground arith

  gate_killed :
      (e e' : Engine F B)
      → (live_and_kill_gate e ≡ ok tt) ⊎ ((h : Halt F) × (live_and_kill_gate e ≡ err (halted h)))
      → e'.settings ≡ e.settings
      → e'.kill_switch.engaged ≡ true
      → live_and_kill_gate e' ≡ err (refusal e')
  unfolding assert_live_allowed
  gate_killed e e' g s k = ground arith

module _ {F B : Type 0} ⦃f : Float F⦄ (broker : Broker F B) (env : Env) where
  trade_not_halted :
      (tw : Weights F) (prices : Dict String F) (account : Account F) (e : Engine F B) {h : Halt F}
      {e' : Engine F B}
      → trade broker env tw prices account e ≡ (err (halted h), e')
      → ⊥
  unfolding trade
  trade_not_halted tw prices account e h = ground arith

  after_observe_halted :
      (tw : Weights F) (prices : Dict String F) (account : Account F) (e : Engine F B) {h : Halt F}
      {e' : Engine F B}
      → after_observe broker env tw prices account e ≡ (err (halted h), e')
      → (e'.settings ≡ e.settings) × (e'.kill_switch.engaged ≡ true)
  unfolding after_observe engage
  after_observe_halted tw prices account e {h} {e'} r = ground (
    arith,
    halt_on_drawdown-SameTrading env e,
    halt_on_daily_loss-SameTrading env account e,
    trade_not_halted tw prices account e {h = h} {e' = e'},
  )

  rebalance_halted :
      (tw : Weights F) (prices : Dict String F) (e : Engine F B) {h : Halt F} {e' : Engine F B}
      → rebalance broker env tw prices e ≡ (err (halted h), e')
      → ((live_and_kill_gate e ≡ ok tt) ⊎ ((h : Halt F) × (live_and_kill_gate e ≡ err (halted h))))
        × (e'.settings ≡ e.settings)
        × (e'.kill_switch.engaged ≡ true)
  unfolding rebalance
  rebalance_halted tw prices e {h} {e'} r = elim (result_cases (live_and_kill_gate e)) [
    | inl (y, g) ↦
        let gh : live_and_kill_gate e ≡ err (halted h) = ground arith in
        (inr (h, gh), ground arith, ground (arith, gate_halted e {h = h} gh))
    | inr g ↦ elim (result_cases (broker.get_account e.broker)) [
      | inl (y, a) ↦ absurd (ground arith)
      | inr (account, a) ↦
          let seen = observe_equity env account e in
          let same = observe_equity-SameTrading env account e in
          let after =
            after_observe_halted tw prices account seen {h = h} {e' = e'} (ground arith) in
          (inl (g.1), ground (arith, same, after), after.1)
    ]
  ]

  -- After a rebalance that raised `KillSwitchEngaged`, for whatever reason, every later rebalance of
  -- that engine, with any broker, time, targets and prices, is refused and changes nothing.
  pub halt_stays :
      (tw : Weights F) (prices : Dict String F) (e : Engine F B) {h : Halt F} {e' : Engine F B}
      → rebalance broker env tw prices e ≡ (err (halted h), e')
      → (broker' : Broker F B) (env' : Env) (tw' : Weights F) (prices' : Dict String F)
      → rebalance broker' env' tw' prices' e' ≡ (err (refusal e'), e')
  unfolding rebalance
  halt_stays tw prices e {h} {e'} r broker' env' tw' prices' =
      let killed = rebalance_halted tw prices e r in
      rw (gate_killed e e' killed.0 killed.1 killed.2, rebalance)
