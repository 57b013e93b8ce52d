-- ===== src/Backtest/Splitters.antt =====
-- src/market_trader/backtest/splitters.py. Sizes are natural numbers: zero stands for all that the
-- code refuses as not positive. Times are numbers, as for `datetime64`.
pub mod WalkForward
mod Tests
use market_trader.Prelude.{
  ℕ, zero, suc, ◌+◌, ◌-◌, Bool, true, false, not, ◌&&◌, ◌||◌, Option, none, some, List, [], ◌∷◌,
  Result, ok, err, if◌then◌else◌, ltb, leb, nat_beq, length, filter, any,
}

-- The `ValueError`s.
pub data SplitError : Type 0 where
  sizes_not_positive step_not_positive : SplitError
  unequal_arrays label_before_start too_few_splits : SplitError

-- `np.arange` from `start`, with `count` elements.
pub arange : ℕ → ℕ → List ℕ
arange start zero = []
arange start (suc count) = start ∷ arange (suc start) count

abbrev pub Window : Type 0
Window = List ℕ × List ℕ

module _ (n_samples train_size test_size step : ℕ) (expanding : Bool) where
  -- The window at `pos`.
  pub window : ℕ → Window
  unfolding arange
  window pos =
      let train_end = train_size + pos in
      let train_start = if expanding then 0 else pos in
      (arange train_start (train_end - train_start), arange train_end test_size)

  -- The `while` loop, with fuel.
  pub walk_from : ℕ → ℕ → List Window
  unfolding window
  walk_from zero pos = []
  walk_from (suc fuel) pos =
      let later = walk_from fuel (pos + step) in
      if ltb n_samples (train_size + pos + test_size) then [] else window pos ∷ later

pub walk_forward : ℕ → ℕ → ℕ → Option ℕ → Bool → Result SplitError (List Window)
unfolding walk_from
walk_forward n_samples train_size test_size step expanding =
    let by : ℕ = elim step [ none ↦ test_size | some s ↦ s ] in
    if nat_beq train_size 0 || nat_beq test_size 0
    then err sizes_not_positive
    else if nat_beq by 0
    then err step_not_positive
    else ok (walk_from n_samples train_size test_size by expanding (suc n_samples) 0)

-- `a[i]`; the indices that the code uses are in range.
pub at : List ℕ → ℕ → ℕ
at [] i = 0
at (x ∷ xs) zero = x
at (x ∷ xs) (suc i) = at xs i

-- `a[idx].min()` and `.max()` of a non-empty selection, from its first element.
pub least : List ℕ → ℕ → List ℕ → ℕ
unfolding at
least a best [] = best
least a best (i ∷ idx) = least a (if ltb (at a i) best then at a i else best) idx

pub greatest : List ℕ → ℕ → List ℕ → ℕ
unfolding at
greatest a best [] = best
greatest a best (i ∷ idx) = greatest a (if ltb best (at a i) then at a i else best) idx

abbrev pub elem : ℕ → List ℕ → Bool
elem i idx = any (λ j. nat_beq i j) idx

-- `np.any(a1 < a0)`
pub any_before : List ℕ → List ℕ → Bool
any_before [] a1 = false
any_before (x ∷ a0) [] = false
any_before (x ∷ a0) (y ∷ a1) = ltb y x || any_before a0 a1

module _ (a0 a1 : List ℕ) (embargo_n : ℕ) where
  -- Whether sample `i` stays in training beside the test fold `j ∷ test`.
  pub in_train : ℕ → List ℕ → ℕ → Bool
  unfolding at least greatest
  in_train j test i =
      let test_start = least a0 (at a0 j) test in
      let test_end = greatest a1 (at a1 j) test in
      let right = suc (greatest (arange 0 (length a0)) j test) in
      not (leb test_start (at a1 i) && leb (at a0 i) test_end)
      && not (elem i (j ∷ test))
      && not (ltb 0 embargo_n && leb right i && ltb i (right + embargo_n))

  -- One round of the loop over the folds; an empty fold is passed over.
  pub purged_folds : List (List ℕ) → List Window
  unfolding in_train arange
  purged_folds [] = []
  purged_folds ([] ∷ folds) = purged_folds folds
  purged_folds ((j ∷ test) ∷ folds) =
      (filter (in_train j test) (arange 0 (length a0)), j ∷ test) ∷ purged_folds folds

-- `PurgedKFold.split`, over `np.array_split` and the rounded embargo.
pub split : (List ℕ → ℕ → List (List ℕ)) → ℕ → ℕ → List ℕ → List ℕ → Result SplitError (List Window)
unfolding purged_folds any_before
split array_split n_splits embargo_n a0 a1 =
    if not (nat_beq (length a0) (length a1))
    then err unequal_arrays
    else if any_before a0 a1
    then err label_before_start
    else if ltb n_splits 2
    then err too_few_splits
    else ok (purged_folds a0 a1 embargo_n (array_split (arange 0 (length a0)) n_splits))
