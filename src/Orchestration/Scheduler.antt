-- ===== src/Orchestration/Scheduler.antt =====
-- src/market_trader/orchestration/scheduler.py: the job registry. Durations are microseconds.
mod Tests
use market_trader.Prelude.{
  ℕ, ◌+◌, ◌*◌, ◌≤◌, ◌≡◌, refl, String, Bool, true, false, Option, none, some, List, [], ◌∷◌, arith,
  Mem, ◌⊎◌, inl, inr, ◌↔◌, leb, filter, mem-filter, mem-filter_of, Option-cases,
}
use market_trader.Prelude.Eq.{string_eq}
use market_trader.Prelude.Dict.{Dict, lookup, insert, values}
use market_trader.Core.Time.{Instant}

pub data Cadence : Type 0 where
  realtime minutely hourly daily weekly event : Cadence

-- `_INTERVALS.get(cadence)`
abbrev pub interval_of : Cadence → Option ℕ
interval_of realtime = none
interval_of minutely = some 60_000_000
interval_of hourly = some 3_600_000_000
interval_of daily = some 86_400_000_000
interval_of weekly = some 604_800_000_000
interval_of event = none

pub record Job (Fn : Type 0) : Type 0 where
  pub name : String
  pub cadence : Cadence
  pub fn : Fn
  pub catchup : Bool

abbrev pub Registry : Type 0 → Type 0
Registry Fn = Dict String (Job Fn)

-- `last is None or now - last >= interval`; a last run after `now` makes the difference negative.
abbrev pub has_elapsed : Instant → ℕ → Option Instant → Bool
has_elapsed now interval none = true
has_elapsed now interval (some last) = leb (last + interval) now

abbrev pub is_elapsed_for : Instant → Option ℕ → Option Instant → Bool
is_elapsed_for now none last = false
is_elapsed_for now (some interval) last = has_elapsed now interval last

module _ {Fn : Type 0} where
  unfoldable pub register : Job Fn → Registry Fn → Registry Fn
  register job jobs = insert job.name job jobs

  unfoldable pub jobs : Registry Fn → List (Job Fn)
  jobs registry = values registry

  unfoldable pub due : Instant → Dict String Instant → Registry Fn → List (Job Fn)
  due now last_run registry =
      filter (λ job. is_elapsed_for now (interval_of job.cadence) (lookup job.name last_run))
        (values registry)

  -- What makes a job due: its cadence has an interval, and it never ran or ran that long ago.
  pub record IsDue (now : Instant) (last_run : Dict String Instant) (job : Job Fn) : Type 0 where
    pub interval : ℕ
    pub is_interval : interval_of job.cadence ≡ some interval
    pub elapsed :
        (lookup job.name last_run ≡ none)
        ⊎ ((last : Instant) × (lookup job.name last_run ≡ some last) × (last + interval ≤ now))

  test-IsDue :
      (now : Instant) (last_run : Dict String Instant) (job : Job Fn)
      → is_elapsed_for now (interval_of job.cadence) (lookup job.name last_run) ≡ true
      → IsDue now last_run job
  test-IsDue now last_run job h = elim (Option-cases (interval_of job.cadence)) [
    | inl e ↦ absurd (ground arith)
    | inr (i, e) ↦ elim (Option-cases (lookup job.name last_run)) [
      | inl l ↦ record { interval = i; is_interval = e; elapsed = inl l }
      | inr (last, l) ↦ record {
        interval = i;
        is_interval = e;
        elapsed = inr (last, l, ground arith);
      }
    ]
  ]

  IsDue-test :
      (now : Instant) (last_run : Dict String Instant) (job : Job Fn)
      → IsDue now last_run job
      → is_elapsed_for now (interval_of job.cadence) (lookup job.name last_run) ≡ true
  IsDue-test now last_run job h = elim h.elapsed [
    | inl l ↦ rw (h.is_interval, l) refl
    | inr (last, l, e) ↦ rw (h.is_interval, l) (ground arith)
  ]

  -- The due jobs are exactly the registered ones whose cadence has an interval that has elapsed since
  -- their last run, or that never ran, whatever their `catchup` says; streamed jobs never are.
  pub mem-due :
      (now : Instant) (last_run : Dict String Instant) (registry : Registry Fn) (job : Job Fn)
      → Mem job (due now last_run registry) ↔ (Mem job (jobs registry) × IsDue now last_run job)
  unfolding due jobs
  mem-due now last_run registry job =
      let test : Job Fn → Bool =
        λ j. is_elapsed_for now (interval_of j.cadence) (lookup j.name last_run) in
      (
        λ m.
            let (k, t) = mem-filter test job (values registry) m in
            (k, test-IsDue now last_run job t),
        λ h. mem-filter_of test job (values registry) h.0 (IsDue-test now last_run job h.1),
      )
