-- ===== src/Backtest/Splitters/WalkForward.antt =====
-- The windows of `walk_forward`.
use market_trader.Prelude.{
  ℕ, zero, suc, ◌+◌, ◌-◌, ◌*◌, ◌≤◌, ◌<◌, ◌≡◌, refl, Bool, Option, none, some, List, arith, All, ok,
  if◌then◌else◌, leb, length,
}
use market_trader.Prelude.Lists.{get_elem?, All-map}
use market_trader.Backtest.Splitters.{Window, arange, window, walk_from, walk_forward}

arange-bounds :
    (start count : ℕ) → All (λ i. (start ≤ i) × (i < start + count)) (arange start count)
unfolding arange
arange-bounds start zero = tt
arange-bounds start (suc count) =
    (omega arith, All-map _ _ _ (λ i h. omega arith) (arange-bounds (suc start) count))

length-arange : (start count : ℕ) → length (arange start count) ≡ count
unfolding arange
length-arange start zero = refl
length-arange start (suc count) = omega (arith, length-arange (suc start) count)

regroup : (pos step k : ℕ) → pos + step + k * step ≡ pos + suc k * step
regroup pos step k = omega arith

below : (pos step k : ℕ) → pos ≤ pos + suc k * step
below pos step k = omega arith

module _ (n_samples train_size test_size step : ℕ) (expanding : Bool) where
  -- The `k`th window from `pos`, while it fits in the samples; no more windows after that.
  walk_from_lem :
      (fuel pos k : ℕ)
      → 0 < step
      → 0 < test_size
      → n_samples < fuel + pos
      → get_elem? (walk_from n_samples train_size test_size step expanding fuel pos) k ≡ (
          if leb (train_size + (pos + k * step) + test_size) n_samples
          then some (window n_samples train_size test_size step expanding (pos + k * step))
          else none)
  unfolding walk_from
  walk_from_lem zero pos k hs ht hf = ground arith
  walk_from_lem (suc fuel) pos zero hs ht hf = ground arith
  walk_from_lem (suc fuel) pos (suc k) hs ht hf =
      let ih = walk_from_lem fuel (pos + step) k hs ht (omega arith) in
      let same : pos + step + k * step ≡ pos + suc k * step = regroup pos step k in
      ground (arith, rw same at ih, below pos step k)

-- The stride: `step`, or the test size.
abbrev pub stride : ℕ → Option ℕ → ℕ
stride test_size none = test_size
stride test_size (some step) = step

-- What a window at `pos` is, for sizes that are not zero.
abbrev pub IsWindow : ℕ → ℕ → ℕ → Window → Type 0
IsWindow train_size test_size pos w =
    All (λ i. All (λ j. i < j) w.1) w.0
    × All (λ j. j < train_size + pos + test_size) w.1
    × (0 < length w.0)
    × (length w.1 ≡ test_size)
    × (0 < test_size)

module _ (n_samples train_size test_size step : ℕ) (expanding : Bool) where
  window-IsWindow :
      (pos : ℕ)
      → 0 < train_size
      → 0 < test_size
      → IsWindow train_size test_size pos (window n_samples train_size test_size step expanding pos)
  unfolding window
  window-IsWindow pos a b =
      let end = train_size + pos in
      let first = if expanding then 0 else pos in
      let early : first + (end - first) ≡ end = ground arith in
      (
        All-map _ _ _
            (λ i h. All-map _ _ _ (λ j t. omega (arith, early, h, t)) (arange-bounds end test_size))
            (arange-bounds first (end - first)),
        All-map _ _ _ (λ j t. t.1) (arange-bounds end test_size),
        rw (length-arange first (end - first)) (ground arith),
        length-arange end test_size,
        b,
      )

walk_forward_ok :
    (n_samples train_size test_size : ℕ) (step : Option ℕ) (expanding : Bool) {ws : List Window}
    → walk_forward n_samples train_size test_size step expanding ≡ ok ws
    → (0 < train_size)
      × (0 < test_size)
      × (0 < stride test_size step)
      × (walk_from n_samples train_size test_size
            (stride test_size step)
            expanding
            (suc n_samples)
            0
          ≡ ws)
unfolding walk_forward
walk_forward_ok n_samples train_size test_size step expanding h = ground arith

-- A split that returns has exactly these windows: the `k`th starts at `k` strides and is there exactly
-- while its train and test samples fit in the data; in it every train index is before every test index,
-- every test index is a sample, and neither side is empty.
pub walk_forward_lem :
    (n_samples train_size test_size : ℕ) (step : Option ℕ) (expanding : Bool) {ws : List Window}
    → walk_forward n_samples train_size test_size step expanding ≡ ok ws
    → (k : ℕ)
    → let pos = k * stride test_size step in
      let w = window n_samples train_size test_size (stride test_size step) expanding pos in
      (get_elem? ws k ≡ (if leb (train_size + pos + test_size) n_samples then some w else none))
      × IsWindow train_size test_size pos w
walk_forward_lem n_samples train_size test_size step expanding h k =
    let (a, b, c, same) = walk_forward_ok n_samples train_size test_size step expanding h in
    let by = stride test_size step in
    let start : 0 + k * by ≡ k * by = omega arith in
    (
      rw (← same, ← start)
          (walk_from_lem n_samples train_size test_size by expanding (suc n_samples) 0 k c b
            (omega arith)),
      window-IsWindow n_samples train_size test_size by expanding (k * by) a b,
    )
