-- ===== src/Runtime.antt =====
-- src/market_trader/runtime: the daily cycle, the sleeves, the scheduler and the intraday gate.
pub mod Schedule
pub mod IntradayConfirm
pub mod InsiderEvents
pub mod Sleeve
pub mod NewsSleeve
pub mod InsiderSleeve
pub mod Cycle
pub mod Preflight
