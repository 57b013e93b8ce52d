-- ===== src/Runtime/NewsSleeve.antt =====
-- src/market_trader/runtime/news_sleeve.py: the news sleeve. `Detect` finds the events, `Positions`
-- reads and writes the sleeve's state, `Pass` is one pass.
pub mod Detect
pub mod Positions
pub mod Pass
pub mod Own
pub mod Opening
pub mod Traded
mod Tests
