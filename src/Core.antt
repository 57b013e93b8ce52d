-- ===== src/Core.antt =====
-- src/market_trader/core: the canonical observation, its identity, and time.
pub mod Time
pub mod Schema
pub mod Identity
