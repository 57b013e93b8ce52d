-- ===== src/Runtime/Cycle.antt =====
-- src/market_trader/runtime/cycle.py: the daily cycle, from the scores to the orders.
pub mod Exits
pub mod Weighting
pub mod Predictions
pub mod Target
pub mod Pass
pub mod Weighed
pub mod Book
pub mod Flatten
pub mod Cancelled
pub mod Traded
pub mod Keys
pub mod Live
pub mod Spares
mod Tests
