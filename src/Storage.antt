-- ===== src/Storage.antt =====
-- src/market_trader/storage: the point-in-time store, in memory and over SQL.
pub mod Bitemporal
pub mod Sql
