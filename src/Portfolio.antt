-- ===== src/Portfolio.antt =====
-- src/market_trader/portfolio: the hard risk controls and the sizing of a book.
pub mod Risk
pub mod Sizing
