-- ===== src/Backtest/Costs.antt =====
-- src/market_trader/backtest/costs.py: the cost models. The order in which a set is summed is an
-- argument, `listing`, since Python leaves it open.
use market_trader.Prelude.{ℕ, String, not, List, ◌++◌, map, filter, any}
use market_trader.Prelude.Eq.{◌==◌, string_eq}
use market_trader.Prelude.Dict.{keys, values, get_or}
use market_trader.Float.{Float, nought}
use market_trader.Portfolio.Risk.{Weights}

-- The parameters of `BasicCostModel`.
pub record BasicCostModel (F : Type 0) : Type 0 where
  pub commission_bps : F
  pub half_spread_bps : F
  pub slippage_bps : F

pub data CostModel (F : Type 0) : Type 0 where
  zero_cost : CostModel F
  basic : BasicCostModel F → CostModel F
  borrow : BasicCostModel F → F → CostModel F

module _ {F : Type 0} ⦃f : Float F⦄ where
  -- `set(prev) | set(new)`
  unfoldable pub symbols_of : Weights F → Weights F → List String
  symbols_of prev next = keys prev ++ filter (λ s. not (any (λ t. t == s) (keys prev))) (keys next)

  unfoldable pub one_way_turnover : (List String → List String) → Weights F → Weights F → F
  one_way_turnover listing prev next = f.sum (
      map (λ s. f.abs (f.sub (get_or s nought next) (get_or s nought prev)))
        (listing (symbols_of prev next)))

  abbrev pub basic_cost : (List String → List String) → BasicCostModel F → Weights F → Weights F → F
  basic_cost listing m prev next =
      f.mul
        (f.mul (one_way_turnover listing prev next)
          (f.add (f.add m.commission_bps m.half_spread_bps) m.slippage_bps))
        (f.lit 1 4)

  unfoldable pub turnover_cost :
      (List String → List String) → CostModel F → Weights F → Weights F → F
  turnover_cost listing zero_cost prev next = nought
  turnover_cost listing (basic m) prev next = basic_cost listing m prev next
  turnover_cost listing (borrow m bps) prev next = basic_cost listing m prev next

  -- `sum(-w for w in weights.values() if w < 0.0)`
  unfoldable pub short_notional : Weights F → F
  short_notional weights = f.sum (map f.neg (filter (λ w. f.lt w nought) (values weights)))

  unfoldable pub holding_cost : CostModel F → Weights F → ℕ → F
  holding_cost zero_cost weights days = nought
  holding_cost (basic m) weights days = nought
  holding_cost (borrow m bps) weights days =
      f.mul (f.mul (short_notional weights) (f.mul bps (f.lit 1 4)))
        (f.div (f.lit days 0) (f.lit 365 0))
