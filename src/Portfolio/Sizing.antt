-- ===== src/Portfolio/Sizing.antt =====
-- src/market_trader/portfolio/sizing.py, and `volatility_target_weights` of construction.py.
use market_trader.Prelude.{
  ℕ, ◌-◌, String, ◌&&◌, Option, none, some, List, [], ◌∷◌, map, filter, length, drop, leb,
  if◌then◌else◌,
}
use market_trader.Prelude.Eq.{string_eq}
use market_trader.Prelude.Dict.{Dict, get_or, keys, values}
use market_trader.Float.{Float, nought, one, fmax, fmin}
use market_trader.Portfolio.Risk.{Weights, RiskLimits}
use market_trader.Portfolio.Risk.Limits.{apply_risk_limits}
use market_trader.Backtest.Pit.{Frame}

-- The calls of pandas, NumPy and scikit-learn: `Series.pct_change`, the annualised volatility
-- `sqrt(max(w @ cov @ w, 0)) * sqrt(252)` under the Ledoit-Wolf covariance of a window of returns,
-- `Series.std(ddof=0)`, `exp`, and `int` and `round` of a float that is not negative.
pub record Numerics (F : Type 0) : Type 0 where
  pub pct_change : List (Option F) → List (Option F)
  pub annual_vol : Dict String (List F) → Weights F → F
  pub std : List F → F
  pub exp : F → F
  pub int : F → ℕ
  pub round_int : F → ℕ

abbrev pub tail_of {ℓ} : {A : Type ℓ} → ℕ → List A → List A
tail_of n xs = drop (length xs - n) xs

module _ {F : Type 0} where
  -- The cells of a column, if none of them is NaN.
  unfoldable pub whole_column : List (Option F) → Option (List F)
  whole_column [] = some []
  whole_column (c ∷ cs) =
      let rest = whole_column cs in
      elim c [ none ↦ none | some x ↦ elim rest [ none ↦ none | some xs ↦ some (x ∷ xs) ] ]

  -- `dropna(axis=1, how="any")`
  unfoldable pub drop_partial : Frame F → Dict String (List F)
  drop_partial [] = []
  drop_partial ((s, column) ∷ rest) =
      let later = drop_partial rest in
      elim (whole_column column) [ none ↦ later | some xs ↦ (s, xs) ∷ later ]

  -- `frame.shape[0]`
  abbrev pub row_count : Frame F → ℕ
  row_count [] = 0
  row_count ((s, column) ∷ rest) = length column

module _ {F : Type 0} ⦃f : Float F⦄ (np : Numerics F) where
  -- `weights * k`
  abbrev pub scale : F → Weights F → Weights F
  scale k w = map (λ (kv : String × F). (kv.0, f.mul kv.1 k)) w

  -- `Series(weights).reindex(names).fillna(0.0)`
  abbrev pub reindex : List String → Weights F → Weights F
  reindex names w = map (λ s. (s, get_or s nought w)) names

  unfoldable pub volatility_target_weights : Dict String (List F) → F → Weights F → Weights F
  volatility_target_weights window target_vol w =
      let annual_vol = np.annual_vol window w in
      if f.le annual_vol nought then w else scale (f.div target_vol annual_vol) w

  -- `if abs(float(v)) > 1e-9`
  abbrev pub without_dust : Weights F → Weights F
  without_dust w = filter (λ (kv : String × F). f.lt (f.lit 1 9) (f.abs kv.1)) w

  abbrev pub mean : List F → F
  mean xs = f.div (f.sum xs) (f.lit (length xs) 0)

  unfoldable pub cross_sectional_zscore : List F → List F
  cross_sectional_zscore xs =
      let sd = np.std xs in
      let m = mean xs in
      if f.is_nan sd
      then map (λ x. f.mul x nought) xs
      else if f.eq sd nought
      then map (λ x. f.mul x nought) xs
      else map (λ x. f.div (f.sub x m) sd) xs

  -- `clip(-3.0, 3.0)`
  abbrev pub clip_z : F → F
  clip_z z = fmin (fmax z (f.neg (f.lit 3 0))) (f.lit 3 0)

  -- The labels of one list with the values of another.
  unfoldable pub labelled : List String → List F → Weights F
  labelled [] xs = []
  labelled (s ∷ ss) [] = []
  labelled (s ∷ ss) (x ∷ xs) = (s, x) ∷ labelled ss xs

  abbrev pub equal_weights : List String → Weights F
  equal_weights names = map (λ s. (s, f.div one (f.lit (length names) 0))) names

  unfoldable pub tilt_weights : Option (Dict String F) → List String → F → Weights F
  tilt_weights none names tilt_strength = equal_weights names
  tilt_weights (some scores) names tilt_strength =
      let z = map clip_z (cross_sectional_zscore (values (reindex names scores))) in
      let raw = map (λ x. np.exp (f.mul tilt_strength x)) z in
      let total = f.sum raw in
      if f.le tilt_strength nought
      then equal_weights names
      else if f.lt nought total
      then labelled names (map (λ x. f.div x total) raw)
      else equal_weights names

  -- `w / gross` if the gross is positive.
  abbrev pub normalized : Weights F → Weights F
  normalized w =
      let gross = f.sum (values w) in
      if f.lt nought gross then map (λ (kv : String × F). (kv.0, f.div kv.1 gross)) w else w

  -- The book before the limits. `returns` has at most `lookback` rows, so that its tail is itself.
  unfoldable pub sized_weights : Frame F → F → Option (Dict String F) → F → F → Weights F
  sized_weights returns target_vol scores tilt_strength regime_derisk =
      let raw = tilt_weights scores (keys returns) tilt_strength in
      let shrink = fmax nought regime_derisk in
      let window = drop_partial returns in
      if leb 2 (length window) && leb 20 (row_count returns)
      then volatility_target_weights window (f.mul target_vol shrink)
          (normalized (reindex (keys window) raw))
      else scale shrink raw

  -- Without a map of sectors, as the cycle calls it.
  unfoldable pub size_book : Frame F → F → RiskLimits F → Option (Dict String F) → F → F → Weights F
  size_book [] target_vol limits scores tilt_strength regime_derisk = []
  size_book (c ∷ cs) target_vol limits scores tilt_strength regime_derisk =
      apply_risk_limits (λ names. names) none limits
        (without_dust (sized_weights (c ∷ cs) target_vol scores tilt_strength regime_derisk))
