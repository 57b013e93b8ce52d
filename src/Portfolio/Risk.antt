-- ===== src/Portfolio/Risk.antt =====
-- src/market_trader/portfolio/risk.py: `check_order` and the drawdown circuit-breaker.
pub mod Drawdown
pub mod Limits
mod Tests
use market_trader.Prelude.{
  String, Bool, true, false, ◌&&◌, Option, none, some, map, Result, ok, err, if◌then◌else◌,
}
use market_trader.Prelude.Eq.{string_eq}
use market_trader.Prelude.Dict.{Dict, insert, values}
use market_trader.Float.{Float, nought, one, fmax}

-- A target portfolio: symbol to weight (backtest/types.py).
abbrev pub Weights : Type 0 → Type 0
Weights F = Dict String F

pub record RiskLimits (F : Type 0) : Type 0 where
  pub max_position_weight : F
  pub max_gross_exposure : F
  pub max_net_exposure : F
  pub max_sector_weight : F

-- `RiskLimitBreach`, by the limit that it names.
pub data Breach (F : Type 0) : Type 0 where
  position : String → F → Breach F
  gross net : F → Breach F

pub record Breaker (F : Type 0) : Type 0 where
  pub max_drawdown : F
  pub peak : Option F
  pub tripped : Bool

module _ {F : Type 0} ⦃f : Float F⦄ where
  -- `limit + 1e-9`
  abbrev pub with_slack : F → F
  with_slack limit = f.add limit (f.lit 1 9)

  abbrev pub gross_of : Weights F → F
  gross_of w = f.sum (map f.abs (values w))

  abbrev pub net_of : Weights F → F
  net_of w = f.sum (values w)

  unfoldable pub check_order : String → F → Weights F → RiskLimits F → Result (Breach F) (Unit {0})
  check_order symbol target_weight current_weights limits =
      if f.lt (with_slack limits.max_position_weight) (f.abs target_weight)
      then err (position symbol target_weight)
      else let proposed = insert symbol target_weight current_weights in
        if f.lt (with_slack limits.max_gross_exposure) (gross_of proposed)
        then err (gross (gross_of proposed))
        else if f.lt (with_slack limits.max_net_exposure) (f.abs (net_of proposed))
        then err (net (net_of proposed))
        else ok tt

  unfoldable pub new_breaker : F → Breaker F
  new_breaker max_drawdown = record { max_drawdown = max_drawdown; peak = none; tripped = false }

  unfoldable pub seed : Option F → Bool → Breaker F → Breaker F
  seed peak tripped b = record b { peak = peak; tripped = tripped }

  -- `self._peak = equity if self._peak is None else max(self._peak, equity)`
  abbrev pub raise_peak : Option F → F → F
  raise_peak none equity = equity
  raise_peak (some peak) equity = fmax peak equity

  -- The test that trips the breaker at a peak.
  abbrev pub is_drawdown : F → F → F → Bool
  is_drawdown max_drawdown peak equity =
      f.lt nought peak && f.le (f.sub (f.div equity peak) one) (f.neg max_drawdown)

  -- The state after `update`; the call returns its `tripped`.
  unfoldable pub update : F → Breaker F → Breaker F
  update equity b =
      let peak = raise_peak b.peak equity in
      record b {
        peak = some peak;
        tripped = if is_drawdown b.max_drawdown peak equity then true else b.tripped;
      }

  unfoldable pub reset : Breaker F → Breaker F
  reset b = record b { peak = none; tripped = false }
