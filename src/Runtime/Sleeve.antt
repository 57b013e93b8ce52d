-- ===== src/Runtime/Sleeve.antt =====
-- What src/market_trader/runtime/news_sleeve.py and insider_sleeve.py have in common.
pub mod Routed
pub mod Own
pub mod Fixture
use market_trader.Prelude.{
  ℕ, String, Bool, true, false, not, ◌&&◌, Option, none, some, List, [], ◌∷◌, Result, ok, err, any,
  nat_beq, if◌then◌else◌, ltb,
}
use market_trader.Prelude.Eq.{◌==◌, string_eq}
use market_trader.Prelude.Dict.{Dict, lookup, insert, contains}
use market_trader.Float.{Float, nought, one, truthy}
use market_trader.Config.{Settings}
use market_trader.Core.Time.{Instant, DateTime, to_utc_lenient}
use market_trader.Core.Schema.{Observation, Value, null, boolean, integer, number, text, numbers}
use market_trader.Core.Identity.{with_deterministic_id}
use market_trader.Storage.Bitemporal.{Store, by_dataset, upsert_many, as_of}
use market_trader.Portfolio.Risk.{Weights, RiskLimits}
use market_trader.Execution.Broker.{Broker, Order}
use market_trader.Execution.Engine.{Env, TradingError}
use market_trader.Execution.Engine.Restore.{new_engine}
use market_trader.Execution.Engine.Rebalance.{rebalance}

-- The library calls on texts: `datetime.fromisoformat`, with `none` for its `ValueError`, the first 16
-- digits of `sha1(...).hexdigest()`, `str` of a date, and `str` of a value that is not a text.
pub record Texts : Type 0 where
  pub fromisoformat : String → Option DateTime
  pub digest : String → String
  pub date_text : Instant → String

-- The `ValueError` or `KeyError` of an `exit_by` that cannot be read.
pub data StateError : Type 0 where
  bad_exit_by : StateError

-- What leaves a pass: that, or an exception of the engine.
pub data SleeveError (F : Type 0) : Type 0 where
  bad_state : StateError → SleeveError F
  engine_raised : TradingError F → SleeveError F

-- The locals of a pass that its loops change, and the store; `live` is a set.
pub record PassState (F : Type 0) : Type 0 where
  pub target : Weights F
  pub opened : List String
  pub closed : List String
  pub live : List String
  pub store : Store F

abbrev pub is_in : String → List String → Bool
is_in s names = any (λ n. n == s) names

abbrev pub price_dataset : String
price_dataset = "price.ohlcv"

-- `to_utc_lenient(datetime.fromisoformat(s))`
abbrev pub read_instant : Texts → String → Result StateError Instant
read_instant texts s = elim (texts.fromisoformat s) [
  | none ↦ err bad_exit_by
  | some dt ↦ elim (to_utc_lenient dt) [ ok t ↦ ok t | err e ↦ err bad_exit_by ]
]

module _ {F : Type 0} where
  -- `_persist`
  unfoldable pub persist : Env → Observation F → Store F → Store F
  persist env o s = upsert_many (with_deterministic_id env.identity o ∷ []) s

  abbrev pub text_at : String → Dict String (Value F) → Option String
  text_at key d = elim (lookup key d) [
    | none ↦ none
    | some v ↦ elim v [ text s ↦ some s | _ ↦ none ]
  ]

  -- `o.value.get("status") == status`
  abbrev pub is_status : String → Observation F → Bool
  is_status status o = elim (text_at "status" o.value) [ none ↦ false | some t ↦ t == status ]

module _ {F : Type 0} ⦃f : Float F⦄ where
  -- `float(v)` of a number that is there and not zero.
  abbrev pub positive_or_negative : Option (Value F) → Option F
  positive_or_negative none = none
  positive_or_negative (some null) = none
  positive_or_negative (some (boolean b)) = if b then some one else none
  positive_or_negative (some (integer n)) = if nat_beq n 0 then none else some (f.lit n 0)
  positive_or_negative (some (number x)) = if truthy x then some x else none
  positive_or_negative (some (text t)) = none
  positive_or_negative (some (numbers d)) = none

  -- `float(o.value.get(key, 0.0))`, of a number.
  abbrev pub number_at : String → Dict String (Value F) → F
  number_at key d = elim (lookup key d) [
    | none ↦ nought
    | some v ↦ elim v [ number x ↦ x | integer n ↦ f.lit n 0 | _ ↦ nought ]
  ]

  -- The loop of `_latest_prices`: the last row of a symbol wins.
  unfoldable pub price_rows : List String → List (Observation F) → Dict String F → Dict String F
  price_rows symbols [] prices = prices
  price_rows symbols (o ∷ rows) prices = elim (positive_or_negative (lookup "close" o.value)) [
    | none ↦ price_rows symbols rows prices
    | some close ↦
        price_rows symbols rows
          (if any (λ s. s == o.entity_id) symbols then insert o.entity_id close prices else prices)
  ]

  unfoldable pub latest_prices : Store F → Instant → List String → Dict String F
  latest_prices s at symbols = price_rows symbols (as_of at (by_dataset price_dataset) s) []

  -- `stopped`
  unfoldable pub is_stopped : Settings F → Option F → F → Bool
  is_stopped settings none entry_price = false
  is_stopped settings (some price) entry_price =
      truthy price
      && f.lt nought entry_price
      && f.lt nought settings.stop_loss_pct
      && f.le (f.sub (f.div price entry_price) one) (f.neg settings.stop_loss_pct)

  -- `engine.rebalance(target, prices, as_of=as_of)` of a new engine without an audit store, if there is a
  -- target, and the broker after it.
  unfoldable pub execute_target :
      {B : Type 0}
      → Broker F B
      → Env
      → Settings F
      → RiskLimits F
      → Weights F
      → Dict String F
      → B
      → Result (TradingError F) (List (Order F)) × B
  execute_target broker env settings limits [] prices b = (ok [], b)
  execute_target broker env settings limits (w ∷ ws) prices b =
      let r = rebalance broker env (w ∷ ws) prices (new_engine env.now b settings limits none) in
      (r.0, r.1.broker)
