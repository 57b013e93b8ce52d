-- ===== src/Execution.antt =====
-- src/market_trader/execution: brokers, guardrails and the engine.
pub mod Broker
pub mod Guardrails
pub mod PaperBroker
pub mod Audit
pub mod Engine
pub mod Reconciliation
