-- ===== src/Execution/Engine/Fixture.antt =====
-- A paper broker, a clock, settings and prices that the tests share.
use market_trader.Prelude.{true, false, [], ◌∷◌}
use market_trader.Float.Fixed.{Fixed, whole, cents, fixed_float}
use market_trader.Config.{Settings, paper}
use market_trader.Portfolio.Risk.{RiskLimits}
use market_trader.Execution.Broker.{Broker}
use market_trader.Execution.PaperBroker.{PaperBroker, paper_broker}
use market_trader.Execution.Engine.State.{Env}

abbrev pub broker : Broker Fixed (PaperBroker Fixed)
broker = paper_broker

abbrev pub env : Env
env = record {
  identity = record { uuid5 = λ s. 7; isoformat = λ t. "t"; str = λ n. "0" };
  strftime = λ t. "20260105T210000";
  now = 101;
  as_of = 100;
}

abbrev pub settings : Settings Fixed
settings = record {
  execution_mode = paper;
  live_trading_enabled = false;
  max_drawdown_halt = cents 20;
  max_daily_loss = cents 3;
  max_orders_per_interval = 1;
  capital_ceiling = whole 10000;
  fractional_shares = false;
  rebalance_band = whole 0;
  max_position_weight = cents 50;
  max_gross_exposure = whole 1;
  max_net_exposure = whole 1;
  target_vol = cents 10;
  stop_loss_pct = cents 5;
  alpaca_key_id = "key";
  alpaca_secret_key = "secret";
  risk_weighting = "size_book";
  tilt_strength = whole 0;
  daily_cycle_enabled = true;
  insider_enabled = true;
  news_enabled = false;
  news_sleeve_enabled = true;
  news_sleeve_budget = cents 10;
  news_sleeve_max_names = 5;
  news_sleeve_hold_days = 5;
  news_sleeve_cooldown_days = 3;
  news_sleeve_min_confidence = cents 50;
  news_sleeve_count_surge = whole 3;
  news_sleeve_tone_min = cents 150;
  news_sleeve_baseline_days = 14;
  insider_sleeve_enabled = true;
  insider_sleeve_budget = cents 10;
  insider_sleeve_max_names = 5;
  insider_sleeve_hold_days = 5;
}

abbrev pub limits : RiskLimits Fixed
limits = record {
  max_position_weight = cents 50;
  max_gross_exposure = whole 1;
  max_net_exposure = whole 1;
  max_sector_weight = whole 1;
}

-- A thousand in cash, and quotes of two names.
abbrev pub account : PaperBroker Fixed
account = record {
  prices = ("AAPL", whole 10) ∷ ("MSFT", whole 20) ∷ [];
  cash = whole 1000;
  positions = [];
  orders = [];
}
