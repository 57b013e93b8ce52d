-- ===== src/Runtime/Cycle/Weighting.antt =====
-- How the cycle chooses its names and weighs them.
use market_trader.Prelude.{
  ℕ, String, Bool, false, not, ◌&&◌, ◌||◌, Option, none, some, List, [], ◌∷◌, ◌++◌, map, filter,
  length, take, drop, leb, ltb, nat_beq, if◌then◌else◌,
}
use market_trader.Prelude.Eq.{◌==◌, string_eq}
use market_trader.Prelude.Order.{codes}
use market_trader.Prelude.Dict.{Dict, lookup, keys, values, get_or}
use market_trader.Float.{Float, nought, one}
use market_trader.Core.Time.{Instant}
use market_trader.Storage.Bitemporal.{Store, by_dataset, as_of}
use market_trader.Portfolio.Risk.{Weights}
use market_trader.Portfolio.Sizing.{
  Numerics, tail_of, drop_partial, row_count, reindex, volatility_target_weights, without_dust,
  scale,
}
use market_trader.Backtest.Pit.{Frame, observations_to_price_frame}
use market_trader.Runtime.Sleeve.{is_in, price_dataset}
use market_trader.Runtime.Cycle.Exits.{present, peak_of}

-- The feature matrix: a row of cells for each symbol.
abbrev pub Matrix : Type 0 → Type 0
Matrix F = Dict String (Dict String (Option F))

-- `selected[:cap] if cap is not None else selected`
abbrev pub cut : Option ℕ → List String → List String
cut none names = names
cut (some cap) names = take cap names

-- `_select_with_hysteresis`, of the names in their rank.
unfoldable pub select_with_hysteresis : List String → List String → ℕ → ℕ → Option ℕ → List String
select_with_hysteresis ranked held enter_k exit_k cap = cut cap (
    filter (λ s. is_in s held && is_in s (take exit_k ranked)) ranked
    ++ filter (λ s. not (is_in s held)) (take enter_k ranked))

-- `str(c).startswith("vol_")`
abbrev pub is_vol : List ℕ → Bool
is_vol (a ∷ b ∷ c ∷ d ∷ rest) = nat_beq a b'v' && nat_beq b b'o' && nat_beq c b'l' && nat_beq d b'_'
is_vol _ = false

module _ {F : Type 0} where
  -- `matrix.columns`: each row has them.
  abbrev pub columns : Matrix F → List String
  columns [] = []
  columns ((s, row) ∷ rest) = keys row

  abbrev pub cell : Matrix F → String → String → Option F
  cell matrix column s = elim (lookup s matrix) [
    | none ↦ none
    | some row ↦ elim (lookup column row) [ none ↦ none | some c ↦ c ]
  ]

module _ {F : Type 0} ⦃f : Float F⦄ where
  -- `Series.min()` of at least one number.
  unfoldable pub low_of : F → List F → F
  low_of best [] = best
  low_of best (x ∷ xs) = low_of (if f.lt x best then x else best) xs

  -- Each weight over their sum, if that is positive.
  unfoldable pub shares : (String → F) → List String → Option (Weights F)
  shares weight names =
      let total = f.sum (map weight names) in
      if f.lt nought total then some (map (λ n. (n, f.div (weight n) total)) names) else none

  -- The weights by conviction, if their sum is positive; every selected name is ranked.
  unfoldable pub conviction_weights : List String → Dict String F → Option (Weights F)
  conviction_weights [] scores = none
  conviction_weights (n ∷ ns) scores =
      let s = map (λ m. get_or m nought scores) (n ∷ ns) in
      let low = low_of (get_or n nought scores) s in
      let shifted = λ (m : String). f.sub (get_or m nought scores) low in
      let high = peak_of (shifted n) (map shifted (n ∷ ns)) in
      let floor = if f.lt nought high then f.mul high (f.lit 10 2) else one in
      shares (λ m. f.add (shifted m) floor) (n ∷ ns)

  -- `1.0 / vol.where(vol > 0)`
  abbrev pub inverse : Option F → Option F
  inverse none = none
  inverse (some vol) = if f.lt nought vol then some (f.div one vol) else none

  abbrev pub filled : F → Option F → F
  filled mean none = mean
  filled mean (some x) = x

  abbrev pub inverse_at : Matrix F → String → String → Option F
  inverse_at matrix column n = inverse (cell matrix column n)

  -- The weights by inverse volatility, if a name has one and their sum is positive.
  unfoldable pub inverse_weights : List String → Matrix F → Option (Weights F)
  inverse_weights selected matrix = elim (filter (λ c. is_vol (codes c)) (columns matrix)) [
    | [] ↦ none
    | (column ∷ others) ↦
        let known = present (map (inverse_at matrix column) selected) in
        let mean = f.div (f.sum known) (f.lit (length known) 0) in
        if leb 1 (length known)
        then shares (λ n. filled mean (inverse_at matrix column n)) selected
        else none
  ]

  abbrev pub or_equal : List String → Option (Weights F) → Weights F
  or_equal selected none = map (λ n. (n, f.div one (f.lit (length selected) 0))) selected
  or_equal selected (some w) = w

  -- `_risk_weights`, with the scores that the cycle always gives.
  unfoldable pub risk_weights : List String → Matrix F → String → Dict String F → Weights F
  risk_weights selected matrix mode scores = or_equal selected (
      if mode == "conviction"
      then conviction_weights selected scores
      else if mode == "inverse_vol"
      then inverse_weights selected matrix
      else none)

module _ {F : Type 0} ⦃f : Float F⦄ (np : Numerics F) where
  -- `panel[cols].pct_change().iloc[1:].tail(90)` for the names that are columns.
  unfoldable pub returns_of : Frame F → List String → Frame F
  returns_of panel [] = []
  returns_of panel (s ∷ ss) =
      let rest = returns_of panel ss in
      elim (lookup s panel) [
        | none ↦ rest
        | some column ↦ (s, tail_of 90 (drop 1 (np.pct_change column))) ∷ rest
      ]

  -- `_trailing_returns`: without any column, `None`.
  unfoldable pub trailing_returns : Store F → Instant → List String → Option (Frame F)
  trailing_returns s at symbols =
      elim (returns_of (observations_to_price_frame (as_of at (by_dataset price_dataset) s))
        symbols) [ [] ↦ none | (c ∷ cs) ↦ some (c ∷ cs) ]

  -- `returns[names]` for the names of a book that are columns.
  unfoldable pub book_columns : Weights F → Frame F → Frame F
  book_columns [] returns = []
  book_columns ((s, w) ∷ rest) returns =
      let later = book_columns rest returns in
      elim (lookup s returns) [ none ↦ later | some column ↦ (s, column) ∷ later ]

  -- `scaled * (max_gross / gross)` if the gross is over the cap.
  abbrev pub capped_gross : F → Weights F → Weights F
  capped_gross max_gross scaled =
      let gross = f.sum (map f.abs (values scaled)) in
      if f.lt max_gross gross && f.lt nought gross
      then scale np (f.div max_gross gross) scaled
      else scaled

  -- `_vol_target_weights`
  unfoldable pub vol_target_weights : Weights F → Frame F → F → F → Weights F
  vol_target_weights weights returns target_vol max_gross =
      let window = drop_partial (book_columns weights returns) in
      if ltb (length window) 2 || ltb (row_count returns) 20
      then weights
      else without_dust np (
          capped_gross max_gross
            (volatility_target_weights np window target_vol (reindex np (keys window) weights)))
