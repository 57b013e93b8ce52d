-- ===== src/Feedback.antt =====
-- src/market_trader/feedback: the prediction log.
pub mod PredictionLog
pub mod Pruning
pub mod Drift
