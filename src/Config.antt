-- ===== src/Config.antt =====
-- src/market_trader/config/settings.py: the settings that the modelled code reads, and the guard of
-- live trading.
use market_trader.Prelude.{ℕ, String, Bool, ◌&&◌, Result, ok, err, if◌then◌else◌}

pub data Mode : Type 0 where
  paper live : Mode

pub record Settings (F : Type 0) : Type 0 where
  pub execution_mode : Mode
  pub live_trading_enabled : Bool
  pub max_drawdown_halt : F
  pub max_daily_loss : F
  pub max_orders_per_interval : ℕ
  pub capital_ceiling : F
  pub fractional_shares : Bool
  pub rebalance_band : F
  pub max_position_weight : F
  pub max_gross_exposure : F
  pub max_net_exposure : F
  pub target_vol : F
  pub stop_loss_pct : F
  pub alpaca_key_id : String
  pub alpaca_secret_key : String
  pub risk_weighting : String
  pub tilt_strength : F
  pub daily_cycle_enabled : Bool
  pub insider_enabled : Bool
  pub news_enabled : Bool
  pub news_sleeve_enabled : Bool
  pub news_sleeve_budget : F
  pub news_sleeve_max_names : ℕ
  pub news_sleeve_hold_days : ℕ
  pub news_sleeve_cooldown_days : ℕ
  pub news_sleeve_min_confidence : F
  pub news_sleeve_count_surge : F
  pub news_sleeve_tone_min : F
  pub news_sleeve_baseline_days : ℕ
  pub insider_sleeve_enabled : Bool
  pub insider_sleeve_budget : F
  pub insider_sleeve_max_names : ℕ
  pub insider_sleeve_hold_days : ℕ

-- The `RuntimeError`.
pub data LiveDisabled : Type 0 where
  live_disabled : LiveDisabled

abbrev pub is_live : Mode → Bool
is_live paper = Bool.false
is_live live = Bool.true

unfoldable pub assert_live_allowed : {F : Type 0} → Settings F → Result LiveDisabled (Unit {0})
assert_live_allowed s =
    if is_live s.execution_mode && s.live_trading_enabled then ok tt else err live_disabled
