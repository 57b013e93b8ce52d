-- ===== src/Reasoning.antt =====
-- src/market_trader/reasoning: the call budget.
pub mod Budget
