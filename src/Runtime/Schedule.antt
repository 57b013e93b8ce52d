-- ===== src/Runtime/Schedule.antt =====
-- src/market_trader/runtime/schedule.py: `run_daily_schedule` with its calls injected. A world `W`
-- stands for all that they read and change.
mod Tests
use market_trader.Prelude.{
  ℕ, zero, suc, ◌+◌, ◌-◌, ◌≤◌, ◌<◌, ◌≡◌, refl, Bool, true, false, not, ◌&&◌, ◌||◌, Option, none,
  some, Result, ok, err, arith, leb, ◌⊎◌, ◌≢◌, inl, inr, Bool-cases, if◌then◌else◌,
}

-- The injected calls: the clock and the cycle may raise; `stop` is optional.
pub record Calls (W E R : Type 0) : Type 0 where
  pub is_market_open : W → Result E Bool × W
  pub run_cycle : W → Result E R × W
  pub sleep_fn : W → W
  pub stop : Option (W → Bool × W)

-- `bool(was_open)`
abbrev pub was : Option Bool → Bool
was none = false
was (some b) = b

-- A reading of the clock, or what was seen last if it raises.
abbrev pub now_open : {E : Type 0} → Option Bool → Result E Bool → Bool
now_open was_open (ok b) = b
now_open was_open (err e) = was was_open

unfoldable pub fire : {E : Type 0} → Option Bool → Result E Bool → Bool
fire was_open reading = was was_open && not (now_open was_open reading)

-- `max_iterations is not None and iterations >= max_iterations`
abbrev pub is_reached : Option ℕ → ℕ → Bool
is_reached none iterations = false
is_reached (some most) iterations = leb most iterations

-- The loop's state: `was_open`, `iterations`, and the world.
pub record Poll (W : Type 0) : Type 0 where
  pub was_open : Option Bool
  pub iterations : ℕ
  pub world : W

module _ {W E R : Type 0} (calls : Calls W E R) (max_iterations : Option ℕ) where
  -- `(stop and stop()) or (max_iterations is not None and …)`
  unfoldable pub is_over : Poll W → Bool × Poll W
  is_over s = elim calls.stop [
    | none ↦ (is_reached max_iterations s.iterations, s)
    | some stop ↦
        let (answer, w) = stop s.world in
        (answer || is_reached max_iterations s.iterations, record s { world = w })
  ]

  -- The body of the loop up to `iterations += 1`: a cycle that raises is passed over.
  unfoldable pub poll : Poll W → Poll W
  poll s =
      let (reading, w) = calls.is_market_open s.world in
      let fires = fire s.was_open reading in
      record {
        was_open = some (now_open s.was_open reading);
        iterations = s.iterations + 1;
        world = if fires then (calls.run_cycle w).1 else w;
      }

  -- The loop with fuel: `none` when the fuel is out.
  unfoldable pub run_loop : ℕ → Poll W → Option (Poll W)
  run_loop zero s = none
  run_loop (suc fuel) s =
      let (over, s1) = is_over s in
      let s2 = poll s1 in
      let (over2, s3) = is_over s2 in
      let rest = run_loop fuel (record s3 { world = calls.sleep_fn s3.world }) in
      if over then some s1 else if over2 then some s3 else rest

  unfoldable pub run_daily_schedule : ℕ → W → Option (Poll W)
  run_daily_schedule fuel w = run_loop fuel (record { was_open = none; iterations = 0; world = w })

reading_cases : {E : Type 0} (reading : Result E Bool) → (reading ≡ ok false) ⊎ (reading ≢ ok false)
reading_cases (ok false) = inl refl
reading_cases (ok true) = inr (λ e. absurd (cc))
reading_cases (err e) = inr (λ h. absurd (cc))

module _ {W E R : Type 0} (calls : Calls W E R) (max_iterations : Option ℕ) where
  fire-true : (reading : Result E Bool) → reading ≡ ok false → fire (some true) reading ≡ true
  unfolding fire
  fire-true reading h = ground arith

  fire-false :
      (b : Bool) (reading : Result E Bool)
      → (b ≡ false) ⊎ (reading ≢ ok false)
      → fire (some b) reading ≡ false
  unfolding fire
  fire-false b reading h = ground arith

  -- What the poll after one that read `b` does: it runs a cycle, on a market that was open and now reads
  -- closed, or it only reads the clock.
  pub data IsNext (b : Bool) (w : W) : W → Type 0 where
    runs :
        b ≡ true
        → (calls.is_market_open w).0 ≡ ok false
        → IsNext b w (calls.run_cycle (calls.is_market_open w).1).1
    waits :
        (b ≡ false) ⊎ ((calls.is_market_open w).0 ≢ ok false)
        → IsNext b w (calls.is_market_open w).1

  poll-IsNext :
      (b : Bool) (n : ℕ) (w : W)
      → IsNext b w
          (poll calls max_iterations
            (record { was_open = some b; iterations = n; world = w })).world
  unfolding poll
  poll-IsNext false n w =
      rw (fire-false false (calls.is_market_open w).0 (inl refl), poll) (waits (inl refl))
  poll-IsNext true n w = elim (reading_cases (calls.is_market_open w).0) [
    | inl e ↦ rw (fire-true (calls.is_market_open w).0 e, poll) (runs refl e)
    | inr e ↦ rw (fire-false true (calls.is_market_open w).0 (inr e), poll) (waits (inr e))
  ]

  -- After a poll that read the clock, the next poll, from whatever world the stop and the sleep lead to,
  -- runs a cycle exactly once if the market was read open and reads closed now, whether that cycle
  -- raises or not; if it was read closed, or reads open, or the clock raises, it runs none. So a close
  -- that is read twice starts one cycle.
  pub poll-poll :
      (s : Poll W) (w : W) {b : Bool}
      → (calls.is_market_open s.world).0 ≡ ok b
      → IsNext b w
          (poll calls max_iterations (record (poll calls max_iterations s) { world = w })).world
  unfolding poll
  poll-poll s w {b} h = rw (h, poll) (poll-IsNext b (s.iterations + 1) w)

module _ {W E R : Type 0} (calls : Calls W E R) (most : ℕ) where
  is_over-iterations : (s : Poll W) → (is_over calls (some most) s).1.iterations ≡ s.iterations
  unfolding is_over
  is_over-iterations s = ground arith

  is_over_reached : (s : Poll W) → most ≤ s.iterations → (is_over calls (some most) s).0 ≡ true
  unfolding is_over
  is_over_reached s h = ground arith

  poll-iterations : (s : Poll W) → (poll calls (some most) s).iterations ≡ s.iterations + 1
  unfolding poll
  poll-iterations s = refl

  run_loop_ends :
      (fuel : ℕ) (s : Poll W)
      → s.iterations ≤ most
      → most < fuel + s.iterations
      → (last : Poll W) × (run_loop calls (some most) fuel s ≡ some last) × (last.iterations ≤ most)
  unfolding run_loop
  run_loop_ends zero s h f = absurd (omega arith)
  run_loop_ends (suc fuel) s h f =
      let s1 = (is_over calls (some most) s).1 in
      let s2 = poll calls (some most) s1 in
      let s3 = (is_over calls (some most) s2).1 in
      let i1 = is_over-iterations s in
      let i2 = poll-iterations s1 in
      let i3 = is_over-iterations s2 in
      elim (Bool-cases (is_over calls (some most) s).0) [
        | inl e ↦ rw e (s1, refl, omega arith)
        | inr e ↦
            let under : s.iterations < most = ground (arith, is_over_reached s) in
            elim (Bool-cases (is_over calls (some most) s2).0) [
              | inl g ↦ rw (e, g) (s3, refl, omega arith)
              | inr g ↦
                  rw (e, g)
                    (run_loop_ends fuel (record s3 { world = calls.sleep_fn s3.world })
                      (omega arith) (omega arith))
            ]
      ]

  -- With `max_iterations`, the schedule returns, after no more polls than that, whatever the clock, the
  -- cycle and `stop` do; fuel of one more is enough.
  pub run_daily_schedule_ends :
      (w : W)
      → (last : Poll W) × (run_daily_schedule calls (some most) (suc most) w ≡ some last)
        × (last.iterations ≤ most)
  unfolding run_daily_schedule
  run_daily_schedule_ends w =
      run_loop_ends (suc most) (record { was_open = none; iterations = 0; world = w }) (omega arith)
        (omega arith)
