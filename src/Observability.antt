-- ===== src/Observability.antt =====
-- src/market_trader/observability: metrics and data freshness.
pub mod Metrics
pub mod Freshness
