-- ===== src/Universe.antt =====
-- src/market_trader/universe: point-in-time membership and the liquidity screen.
pub mod PitUniverse
pub mod Screen
