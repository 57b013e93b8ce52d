-- ===== src/Collectors.antt =====
-- src/market_trader/collectors: the ingestion gateway and its quality checks.
pub mod Quality
pub mod Gateway
