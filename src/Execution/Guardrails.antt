-- ===== src/Execution/Guardrails.antt =====
-- src/market_trader/execution/guardrails.py: the checks that stand before a broker.
use Prim.Native.String.{◌++◌ as append_text}
use market_trader.Prelude.{
  ℕ, ◌+◌, String, Bool, true, false, ◌&&◌, Option, none, some, Result, ok, err, leb, if◌then◌else◌,
}
use market_trader.Float.{Float, nought, truthy}
use market_trader.Execution.Broker.{Order, OrderType, market, limit}

-- `OrderSanityError`, by its message.
pub data OrderSanityError (F : Type 0) : Type 0 where
  quantity_nan non_positive : OrderSanityError F
  absurd_quantity : F → OrderSanityError F
  limit_far : OrderSanityError F

abbrev pub is_limit : OrderType → Bool
is_limit market = false
is_limit limit = true

pub record KillSwitch : Type 0 where
  pub engaged : Bool
  pub reason : Option String

unfoldable pub engage : String → KillSwitch → KillSwitch
engage reason k = record { engaged = true; reason = some reason }

-- `KillSwitch.reset`
unfoldable pub reset : KillSwitch → KillSwitch
reset k = record { engaged = false; reason = none }

pub record OrderRateLimiter : Type 0 where
  pub max_orders : ℕ
  pub count : ℕ

-- The answer, and the limiter after the call.
unfoldable pub allow : OrderRateLimiter → Bool × OrderRateLimiter
allow r = if leb r.max_orders r.count then (false, r) else (true, record r { count = r.count + 1 })

unfoldable pub reset_count : OrderRateLimiter → OrderRateLimiter
reset_count r = record r { count = 0 }

module _ {F : Type 0} ⦃f : Float F⦄ where
  abbrev pub message : OrderSanityError F → String
  message quantity_nan = "quantity is NaN"
  message non_positive = "non-positive quantity"
  message (absurd_quantity q) = append_text "absurd quantity " (f.str q)
  message limit_far = "limit price far from market"

  -- `ref_price and ref_price > 0 and abs(limit_price - ref_price) / ref_price > max_deviation`
  abbrev pub is_far : F → Option F → F → Bool
  is_far limit_price none deviation = false
  is_far limit_price (some ref) deviation =
      truthy ref && f.lt nought ref && f.lt deviation (f.div (f.abs (f.sub limit_price ref)) ref)

  abbrev pub limit_is_far : Option F → Option F → F → Bool
  limit_is_far none ref deviation = false
  limit_is_far (some price) ref deviation = is_far price ref deviation

  -- The defaults are `1e7` and `0.2`.
  unfoldable pub sanity_check_order :
      Order F → Option F → F → F → Result (OrderSanityError F) (Unit {0})
  sanity_check_order order ref_price max_qty max_price_deviation =
      if f.is_nan order.qty
      then err quantity_nan
      else if f.le order.qty nought
      then err non_positive
      else if f.lt max_qty order.qty
      then err (absurd_quantity order.qty)
      else if is_limit order.order_type
          && limit_is_far order.limit_price ref_price max_price_deviation
      then err limit_far
      else ok tt
