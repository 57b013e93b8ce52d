-- ===== src/Backtest.antt =====
-- src/market_trader/backtest: the splitters, the sealed holdout, the costs and the price panel.
pub mod Splitters
pub mod Costs
pub mod Holdout
pub mod Pit
