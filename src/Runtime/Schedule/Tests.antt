-- ===== src/Runtime/Schedule/Tests.antt =====
-- A market that is open, raises, and closes; the cycle fails.
use market_trader.Prelude.{
  ℕ, zero, suc, nat_beq, if◌then◌else◌, ◌+◌, ◌≤◌, ◌≡◌, refl, Bool, true, false, none, some, ok, err,
  Result,
}
use market_trader.Runtime.Schedule.{
  Calls, Poll, fire, is_over, poll, run_loop, run_daily_schedule, IsNext, poll-poll,
  run_daily_schedule_ends,
}

-- The world counts the readings of the clock and the cycles.
abbrev World : Type 0
World = ℕ × ℕ

abbrev clock : World → Result ℕ Bool × World
clock (zero, c) = (ok true, (1, c))
clock (suc n, c) = (if nat_beq n 0 then err 7 else ok false, (suc (suc n), c))

abbrev calls : Calls World ℕ ℕ
calls = record {
  is_market_open = clock;
  run_cycle = λ w. (err 1, (w.0, w.1 + 1));
  sleep_fn = λ w. w;
  stop = none;
}

one_cycle :
    run_daily_schedule calls (some 5) 6 (0, 0)
    ≡ some (record { was_open = some false; iterations = 5; world = (5, 1) })
unfolding run_daily_schedule run_loop is_over poll fire
one_cycle = refl

-- The clock reads open, then, twice later, closed: the cycle runs and raises.
poll-poll_example :
    IsNext calls
      (some 5)
      true
      (2, 0)
      (poll calls
        (some 5)
        (record (poll calls (some 5) (record { was_open = none; iterations = 0; world = (0, 0) })) {
          world = (2, 0);
        })).world
poll-poll_example =
    poll-poll calls (some 5) (record { was_open = none; iterations = 0; world = (0, 0) }) (2, 0)
      refl

run_daily_schedule_ends_example :
    (last : Poll World) × (run_daily_schedule calls (some 5) 6 (0, 0) ≡ some last)
    × (last.iterations ≤ 5)
run_daily_schedule_ends_example = run_daily_schedule_ends calls 5 (0, 0)
