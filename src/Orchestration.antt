-- ===== src/Orchestration.antt =====
-- src/market_trader/orchestration: which jobs are due.
pub mod Scheduler
