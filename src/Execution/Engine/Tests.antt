-- ===== src/Execution/Engine/Tests.antt =====
-- The engine on a paper broker: a rebalance of two targets, a breach, a killed engine, a restart.
use market_trader.Prelude.{
  String, Bool, true, false, ◌≡◌, refl, none, some, List, [], ◌∷◌, ok, err, ◌++◌, arith, ap,
}
use market_trader.Prelude.Eq.{string_eq}
use market_trader.Prelude.Dict.{Dict}
use market_trader.Prelude.Sort.{sort_by, insert_sorted}
use market_trader.Float.Fixed.{Fixed, whole, cents, fixed_float}
use market_trader.Config.{assert_live_allowed}
use market_trader.Storage.Bitemporal.{Store}
use market_trader.Portfolio.Risk.{Weights, update, check_order}
use market_trader.Execution.Broker.{Order, Account, buy, sell, filled, market_order}
use market_trader.Execution.Guardrails.{sanity_check_order, allow}
use market_trader.Execution.PaperBroker.{
  PaperBroker, submit_order, fill, apply_fill, get_positions, get_open_orders, get_account,
}
use market_trader.Execution.Engine.State.{
  Engine, halted, engaged, audit, save_peak, save_drawdown_state,
}
use market_trader.Execution.Engine.Fixture.{broker, env, settings, limits, account}
use market_trader.Execution.Engine.Gates.{check_targets, observe_equity}
use market_trader.Execution.Engine.Submit.{submit_all, skip_insane, stop_capped, after_submit}
use market_trader.Execution.Engine.Plan.{
  Planned, held, with_pending, plan_all, plan_target, order_for, sells_first,
}
use market_trader.Execution.Engine.Rebalance.{Outcome, trade, after_observe, rebalance}
use market_trader.Execution.Engine.Restore.{
  IsPast, load_drawdown_state, load-save_drawdown_state, new_engine, restart_keeps_breaker,
}
use market_trader.Execution.Engine.SellsFirst.{sells, buys, sells_first_lem}
use market_trader.Execution.Engine.Refused.{rebalance_refused, Passed, rebalance-Passed}
use market_trader.Execution.Engine.Halts.{refusal, halt_stays}
use market_trader.Execution.Engine.Sent.{Sending, rebalance-Sending}

abbrev store : Store Fixed
store = []

abbrev engine : Engine Fixed (PaperBroker Fixed)
engine = record {
  broker = account;
  settings = settings;
  limits = limits;
  audit_store = some store;
  kill_switch = record { engaged = false; reason = none };
  breaker = record { max_drawdown = cents 20; peak = some (whole 1100); tripped = false };
  rate_limiter = record { max_orders = 1; count = 0 };
}

abbrev targets : Weights Fixed
targets = ("AAPL", cents 30) ∷ ("MSFT", cents 40) ∷ []

abbrev prices : Dict String Fixed
prices = ("AAPL", whole 10) ∷ ("MSFT", whole 20) ∷ []

abbrev run : Outcome broker env
run = rebalance broker env targets prices engine

-- Thirty shares of AAPL are sent; the cap of one order holds back MSFT.
abbrev first : Order Fixed
first = record (market_order "20260105T210000-AAPL" "AAPL" buy (whole 30)) {
  status = filled;
  filled_qty = whole 30;
  filled_avg_price = some (whole 10);
}

sends_one : run.0 ≡ ok (first ∷ [])
unfolding rebalance after_observe trade observe_equity save_drawdown_state update check_targets
    check_order held with_pending plan_all plan_target order_for sells_first submit_all skip_insane
    stop_capped after_submit audit sanity_check_order allow submit_order fill apply_fill
    get_positions get_open_orders get_account sort_by insert_sorted assert_live_allowed
sends_one = refl

returned : run ≡ (ok (first ∷ []), run.1)
returned = ap (λ r. (r, run.1)) sends_one

rebalance-Passed_example : (account : Account Fixed) × Passed broker env targets engine account
rebalance-Passed_example = rebalance-Passed broker env targets prices engine returned

rebalance-Sending_example : Sending broker env targets prices engine (first ∷ []) run.1
rebalance-Sending_example = rebalance-Sending broker env targets prices engine returned

-- The same engine, killed.
abbrev killed : Engine Fixed (PaperBroker Fixed)
killed = record engine { kill_switch = record { engaged = true; reason = some "manual" } }

refused : rebalance broker env targets prices killed ≡ (err (halted (engaged "manual")), killed)
unfolding rebalance assert_live_allowed
refused = refl

rebalance_refused_example :
    (killed.broker ≡ killed.broker) × (killed.rate_limiter ≡ killed.rate_limiter)
rebalance_refused_example = rebalance_refused broker env targets prices killed refused

halt_stays_example : rebalance broker env [] prices killed ≡ (err (refusal killed), killed)
halt_stays_example = halt_stays broker env targets prices killed refused broker env [] prices

empty-IsPast : (tripped : Bool) → IsPast env store (whole 1100) tripped
empty-IsPast tripped o m d = absurd m

load-save_drawdown_state_example :
    load_drawdown_state 101 (save_peak env (some (whole 1100)) true store)
    ≡ (some (whole 1100), true)
load-save_drawdown_state_example =
    load-save_drawdown_state env store (whole 1100) true 101 (omega arith) (empty-IsPast true)

restart_keeps_breaker_example :
    (new_engine 101 engine.broker engine.settings engine.limits
      (save_drawdown_state env engine).audit_store).breaker
    ≡ engine.breaker
restart_keeps_breaker_example =
    restart_keeps_breaker env 101 store (whole 1100) engine refl refl refl refl (omega arith)
      (empty-IsPast false) engine.broker

abbrev plan : List (Planned Fixed)
plan =
    (market_order "x" "AAPL" buy (whole 1), whole 10)
    ∷ (market_order "y" "MSFT" sell (whole 2), whole 20)
    ∷ []

sells_first_lem_example : sells_first plan ≡ sells plan ++ buys plan
sells_first_lem_example = sells_first_lem plan
