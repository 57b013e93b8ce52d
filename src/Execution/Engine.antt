-- ===== src/Execution/Engine.antt =====
-- src/market_trader/execution/engine.py: `ExecutionEngine`, over any broker. `Gates` holds the
-- checks before the first order, `Plan` the orders that a rebalance wants, `Submit` the loop that
-- sends them; the proofs are in the modules below.
mod State
pub mod Gates
pub mod Plan
pub mod Submit
pub mod Rebalance
pub mod Restore
pub mod SellsFirst
pub mod Refused
pub mod Halts
pub mod Sent
pub mod Fixture
mod Tests
pub use State.*
