-- ===== src/Feedback/Drift.antt =====
-- src/market_trader/feedback/drift.py: the drift test; the message is left out.
use market_trader.Prelude.{String, Bool}
use market_trader.Float.{Float}

pub record DriftMonitor (F : Type 0) : Type 0 where
  pub baseline : F
  pub tolerance : F
  pub metric : String

module _ {F : Type 0} ⦃f : Float F⦄ where
  unfoldable pub is_drifting : F → DriftMonitor F → Bool
  is_drifting live_value m = f.lt m.tolerance (f.abs (f.sub live_value m.baseline))
