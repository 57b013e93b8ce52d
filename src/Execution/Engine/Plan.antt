-- ===== src/Execution/Engine/Plan.antt =====
-- The orders that a rebalance wants: effective positions, deltas, and sells before buys.
use Prim.Native.String.{◌++◌ as append_text}
use market_trader.Prelude.{
  String, Bool, true, false, not, ◌&&◌, ◌||◌, Option, none, some, List, [], ◌∷◌, Result, ok, err,
  if◌then◌else◌, ◌>>=◌,
}
use market_trader.Prelude.Eq.{string_eq}
use market_trader.Prelude.Sort.{sort_by}
use market_trader.Prelude.Dict.{Dict, lookup, insert, get_or}
use market_trader.Float.{Float, nought, truthy}
use market_trader.Config.{Settings}
use market_trader.Portfolio.Risk.{Weights}
use market_trader.Execution.Broker.{Order, OrderSide, buy, sell, is_sell, Position, market_order}
use market_trader.Execution.Engine.State.{Env, IntError, not_an_integer}

-- An order, and the reference price that it was planned at.
abbrev pub Planned : Type 0 → Type 0
Planned F = Order F × F

module _ {F : Type 0} ⦃f : Float F⦄ where
  -- `{p.symbol: p.qty for p in self.broker.get_positions()}`
  unfoldable pub held : List (Position F) → Dict String F → Dict String F
  held [] d = d
  held (p ∷ ps) d = held ps (insert p.symbol p.qty d)

  -- What is still to be filled of an open order, signed by its side.
  abbrev pub pending_qty : Order F → F
  pending_qty o =
      let remaining = f.sub o.qty o.filled_qty in
      elim o.side [ buy ↦ remaining | sell ↦ f.neg remaining ]

  -- Open orders count as holdings.
  unfoldable pub with_pending : List (Order F) → Dict String F → Dict String F
  with_pending [] d = d
  with_pending (o ∷ os) d =
      with_pending os (insert o.symbol (f.add (get_or o.symbol nought d) (pending_qty o)) d)

  -- The no-trade band: a small adjustment of a position that stays.
  abbrev pub in_band : F → F → F → F → Bool
  in_band band current_qty target_qty delta =
      f.lt nought band
      && truthy current_qty
      && truthy target_qty
      && f.lt (f.abs delta) (f.mul band (f.abs target_qty))

  -- `qty`, in whole shares unless fractions are allowed; `int(qty)` raises on NaN and infinity.
  abbrev pub whole_shares : Bool → F → Result (IntError F) F
  whole_shares true qty = ok qty
  whole_shares false qty =
      if f.is_nan qty || f.is_inf qty then err (not_an_integer qty) else ok (f.trunc qty)

  abbrev pub side_of : F → OrderSide
  side_of delta = if f.lt nought delta then buy else sell

  -- `None`, zero, or `price <= 0`
  abbrev pub no_price : Option F → Bool
  no_price none = true
  no_price (some price) = not (truthy price) || f.le price nought

  -- The order for a difference of `delta` shares at `price`, or none for dust.
  unfoldable pub order_for :
      Env → Settings F → String → F → F → Result (IntError F) (Option (Planned F))
  order_for env settings symbol price delta = do
    qty ← whole_shares settings.fractional_shares (f.abs delta)
    if f.lt (f.mul qty price) (f.lit 1 0)
        then ok none
        else ok (
            some (
              market_order (append_text (env.strftime env.as_of) (append_text "-" symbol)) symbol
                  (side_of delta) qty,
              price,
            ))

  -- One round of the planning loop.
  unfoldable pub plan_target :
      Env
      → Settings F
      → F
      → Dict String F
      → Dict String F
      → String
      → F
      → Result (IntError F) (Option (Planned F))
  plan_target env settings deployable prices positions symbol weight = elim (lookup symbol prices) [
    | none ↦ ok none
    | some price ↦
        if no_price (some price)
        then ok none
        else let target_qty = f.div (f.mul weight deployable) price in
          let current_qty = get_or symbol nought positions in
          let delta = f.sub target_qty current_qty in
          if in_band settings.rebalance_band current_qty target_qty delta
          then ok none
          else order_for env settings symbol price delta
  ]

  abbrev pub keep : Option (Planned F) → List (Planned F) → List (Planned F)
  keep none rest = rest
  keep (some p) rest = p ∷ rest

  unfoldable pub plan_all :
      Env
      → Settings F
      → F
      → Dict String F
      → Dict String F
      → Weights F
      → Result (IntError F) (List (Planned F))
  plan_all env settings deployable prices positions [] = ok []
  plan_all env settings deployable prices positions ((symbol, weight) ∷ rest) =
      let later = plan_all env settings deployable prices positions rest in
      do
        here ← plan_target env settings deployable prices positions symbol weight
        there ← later
        ok (keep here there)

  -- `planned.sort(key=lambda op: op[0].side != OrderSide.SELL)`
  abbrev pub sells_le : Planned F → Planned F → Bool
  sells_le p q = is_sell p.0.side || not (is_sell q.0.side)

  unfoldable pub sells_first : List (Planned F) → List (Planned F)
  sells_first planned = sort_by sells_le planned
