-- ===== src/Float/Interface.antt =====
-- The operations and the laws.
use market_trader.Prelude.{ℕ, String, ◌≡◌, Bool, true, false, not, List, if◌then◌else◌}

pub record Float (F : Type 0) : Type 0 where
  -- The literal `m * 10 ** -e`, such as `1e-9` for 1 and 9.
  pub lit : ℕ → ℕ → F
  pub add : F → F → F
  pub sub : F → F → F
  pub mul : F → F → F
  pub div : F → F → F
  pub neg : F → F
  pub abs : F → F
  pub lt : F → F → Bool
  pub le : F → F → Bool
  pub eq : F → F → Bool
  -- `math.isnan`, `math.isinf`
  pub is_nan : F → Bool
  pub is_inf : F → Bool
  -- The builtin `sum` over floats, which compensates its rounding in some versions.
  pub sum : List F → F
  -- `float(int(x))`
  pub trunc : F → F
  -- `round(x, n)`
  pub round : F → ℕ → F
  -- `str(x)`
  pub str : F → String

module _ {F : Type 0} ⦃f : Float F⦄ where
  abbrev pub nought : F
  nought = f.lit 0 0

  abbrev pub one : F
  one = f.lit 1 0

  -- The builtin `max(a, b)` and `min(a, b)`: the first argument, unless the second is beyond it.
  abbrev pub fmax : F → F → F
  fmax a b = if f.lt a b then b else a

  abbrev pub fmin : F → F → F
  fmin a b = if f.lt b a then b else a

  -- `bool(x)`
  abbrev pub truthy : F → Bool
  truthy x = not (f.eq x nought)

-- What IEEE 754 says of the comparisons, NaN included.
pub record IsOrdered (F : Type 0) ⦃f : Float F⦄ : Type 0 where
  pub lt_irrefl : (a : F) → f.lt a a ≡ false
  pub lt_trans : (a b c : F) → f.lt a b ≡ true → f.lt b c ≡ true → f.lt a c ≡ true
  pub lt_le_trans : (a b c : F) → f.lt a b ≡ true → f.le b c ≡ true → f.lt a c ≡ true
  pub le_lt_trans : (a b c : F) → f.le a b ≡ true → f.lt b c ≡ true → f.lt a c ≡ true
  pub le_trans : (a b c : F) → f.le a b ≡ true → f.le b c ≡ true → f.le a c ≡ true
  pub le_of_lt : (a b : F) → f.lt a b ≡ true → f.le a b ≡ true
  -- Away from NaN the order is total.
  pub le_refl : (a : F) → f.is_nan a ≡ false → f.le a a ≡ true
  pub le_of_not_lt :
      (a b : F) → f.is_nan a ≡ false → f.is_nan b ≡ false → f.lt b a ≡ false → f.le a b ≡ true
