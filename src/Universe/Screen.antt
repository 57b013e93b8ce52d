-- ===== src/Universe/Screen.antt =====
-- src/market_trader/universe/screen.py: the liquidity screen. `upper` is `str.upper`.
use market_trader.Prelude.{
  take, ℕ, String, Bool, not, ◌&&◌, ◌||◌, Option, none, some, List, [], ◌∷◌, map, any, length, ltb,
  if◌then◌else◌,
}
use market_trader.Prelude.Eq.{◌==◌, string_eq}
use market_trader.Prelude.Sort.{sort_by}
use market_trader.Prelude.Dict.{Dict}
use market_trader.Float.{Float, truthy}

pub record Bar (F : Type 0) : Type 0 where
  pub close : Option F
  pub volume : Option F

pub record Screen (F : Type 0) : Type 0 where
  pub exclude : List String
  pub min_price : F
  pub min_dollar_volume : F
  pub max_dollar_volume : F
  pub min_days : ℕ
  pub top_n : ℕ

module _ {F : Type 0} ⦃f : Float F⦄ where
  -- `b.get(key)`, where it is there and not zero.
  abbrev pub present : Option F → Option F
  present none = none
  present (some x) = if truthy x then some x else none

  unfoldable pub closes_of : List (Bar F) → List F
  closes_of [] = []
  closes_of (b ∷ bars) =
      let rest = closes_of bars in elim (present b.close) [ none ↦ rest | some c ↦ c ∷ rest ]

  unfoldable pub dollar_volumes : List (Bar F) → List F
  dollar_volumes [] = []
  dollar_volumes (b ∷ bars) =
      let rest = dollar_volumes bars in
      elim (present b.close) [
        | none ↦ rest
        | some c ↦ elim (present b.volume) [ none ↦ rest | some v ↦ f.mul c v ∷ rest ]
      ]

  abbrev pub last_close : F → List F → F
  last_close x [] = x
  last_close x (y ∷ ys) = last_close y ys

  -- `closes[-1] < min_price or not (min_dollar_volume <= adv <= max_dollar_volume)`
  abbrev pub out_of_band : Screen F → F → F → Bool
  out_of_band cfg close adv =
      f.lt close cfg.min_price
      || not (f.le cfg.min_dollar_volume adv && f.le adv cfg.max_dollar_volume)

  -- The average dollar volume of a symbol that passes. With a `min_days` of zero and no dollar volume
  -- the code raises `ZeroDivisionError`; here the quotient is that of the float parameter.
  unfoldable pub rank_of : Screen F → List (Bar F) → Option F
  rank_of cfg bars =
      let dvs = dollar_volumes bars in
      elim (closes_of bars) [
        | [] ↦ none
        | (c ∷ cs) ↦
            if ltb (length dvs) cfg.min_days
            then none
            else let adv = f.div (f.sum dvs) (f.lit (length dvs) 0) in
              if out_of_band cfg (last_close c cs) adv then none else some adv
      ]

  unfoldable pub ranked_of :
      (String → String) → Screen F → Dict String (List (Bar F)) → List (String × F)
  ranked_of upper cfg [] = []
  ranked_of upper cfg ((symbol, bars) ∷ rest) =
      let later = ranked_of upper cfg rest in
      if any (λ s. upper s == upper symbol) cfg.exclude
      then later
      else elim (rank_of cfg bars) [ none ↦ later | some adv ↦ (upper symbol, adv) ∷ later ]

  unfoldable pub screen_for_liquidity :
      (String → String) → Screen F → Dict String (List (Bar F)) → List String
  screen_for_liquidity upper cfg bars_by_symbol =
      map (λ r. r.0)
        (take cfg.top_n (sort_by (λ a b. f.le b.1 a.1) (ranked_of upper cfg bars_by_symbol)))
