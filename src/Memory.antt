-- ===== src/Memory.antt =====
-- src/market_trader/memory: event detection and surprises.
pub mod Taxonomy
pub mod Surprise
