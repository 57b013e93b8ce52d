-- ===== src/Runtime/InsiderSleeve.antt =====
-- src/market_trader/runtime/insider_sleeve.py: the sleeve that opens on clusters of insider buys.
pub mod Positions
pub mod Pass
pub mod Loops
pub mod Opening
mod Tests
