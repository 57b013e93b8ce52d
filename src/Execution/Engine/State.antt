-- ===== src/Execution/Engine/State.antt =====
-- The engine's state, its exceptions, and what it writes to the audit store.
use market_trader.Prelude.{String, Bool, Option, none, some, [], ◌∷◌}
use market_trader.Prelude.Eq.{string_eq}
use market_trader.Prelude.Dict.{Dict}
use market_trader.Config.{Settings, LiveDisabled}
use market_trader.Core.Time.{Instant}
use market_trader.Core.Schema.{Observation, Value, number, boolean}
use market_trader.Core.Identity.{Identity, with_deterministic_id}
use market_trader.Storage.Bitemporal.{Store, upsert_many}
use market_trader.Portfolio.Risk.{RiskLimits, Breaker, Breach}
use market_trader.Execution.Broker.{BrokerError}
use market_trader.Execution.Guardrails.{KillSwitch, OrderRateLimiter}
use market_trader.Execution.Audit.{log_execution_event}

-- What a call reads besides the engine: identity, `strftime('%Y%m%dT%H%M%S')`, the clock at the
-- call, and the argument `as_of`.
pub record Env : Type 0 where
  pub identity : Identity
  pub strftime : Instant → String
  pub now : Instant
  pub as_of : Instant

pub record Engine (F B : Type 0) : Type 0 where
  pub broker : B
  pub settings : Settings F
  pub limits : RiskLimits F
  pub audit_store : Option (Store F)
  pub kill_switch : KillSwitch
  pub breaker : Breaker F
  pub rate_limiter : OrderRateLimiter

-- Why a `KillSwitchEngaged` is raised.
pub data Halt (F : Type 0) : Type 0 where
  engaged : String → Halt F
  drawdown : Halt F
  daily_loss : F → Halt F

-- The `ValueError` or `OverflowError` of `int(qty)`.
pub data IntError (F : Type 0) : Type 0 where
  not_an_integer : F → IntError F

-- The exceptions that leave the engine: the `RuntimeError` of the live gate, `KillSwitchEngaged`,
-- `RiskLimitBreach`, `BrokerError`, and what `int(qty)` raises.
pub data TradingError (F : Type 0) : Type 0 where
  live_gate : LiveDisabled → TradingError F
  halted : Halt F → TradingError F
  breached : Breach F → TradingError F
  broker_failed : BrokerError → TradingError F
  bad_quantity : IntError F → TradingError F

abbrev pub drawdown_state_dataset : String
drawdown_state_dataset = "risk.drawdown_state"

abbrev pub portfolio_entity : String
portfolio_entity = "PORTFOLIO"

module _ {F : Type 0} where
  unfoldable pub drawdown_observation : Env → F → Bool → Observation F
  drawdown_observation env peak tripped = with_deterministic_id env.identity (record {
    source = "execution";
    dataset = drawdown_state_dataset;
    entity_type = "portfolio";
    entity_id = portfolio_entity;
    ref = some "drawdown";
    event_time = env.as_of;
    knowledge_time = env.as_of;
    value = ("peak", number peak) ∷ ("tripped", boolean tripped) ∷ [];
    metadata = [];
    revision = 0;
    observation_id = 0;
    ingested_at = env.now;
  })

  abbrev pub save_peak : Env → Option F → Bool → Store F → Store F
  save_peak env none tripped s = s
  save_peak env (some peak) tripped s = upsert_many (drawdown_observation env peak tripped ∷ []) s

module _ {F B : Type 0} where
  -- `ExecutionEngine._audit`
  unfoldable pub audit : Env → String → String → Dict String (Value F) → Engine F B → Engine F B
  audit env symbol event detail e = elim e.audit_store [
    | none ↦ e
    | some s ↦ record e {
      audit_store = some (log_execution_event env.identity env.now env.as_of symbol event detail s);
    }
  ]

  -- `ExecutionEngine._save_drawdown_state`
  unfoldable pub save_drawdown_state : Env → Engine F B → Engine F B
  save_drawdown_state env e = elim e.audit_store [
    | none ↦ e
    | some s ↦ record e { audit_store = some (save_peak env e.breaker.peak e.breaker.tripped s) }
  ]
