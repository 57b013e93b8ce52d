-- ===== src/Orchestration/Scheduler/Tests.antt =====
-- A daily job that ran yesterday and a streamed one.
use market_trader.Core.Time.{Instant}
use market_trader.Prelude.{ℕ, String, ◌≡◌, refl, ◌↔◌, true, [], ◌∷◌, Mem}
use market_trader.Prelude.Eq.{string_eq}
use market_trader.Prelude.Dict.{Dict}
use market_trader.Orchestration.Scheduler.{
  Job, Registry, daily, realtime, jobs, due, IsDue, mem-due,
}

abbrev digest : Job ℕ
digest = record { name = "digest"; cadence = daily; fn = 1; catchup = true }

abbrev stream : Job ℕ
stream = record { name = "stream"; cadence = realtime; fn = 2; catchup = true }

abbrev registry : Registry ℕ
registry = ("digest", digest) ∷ ("stream", stream) ∷ []

abbrev yesterday : Dict String Instant
yesterday = ("digest", 10) ∷ []

one_due : due 86_400_000_010 yesterday registry ≡ digest ∷ []
unfolding due
one_due = refl

mem-due_example :
    Mem digest (due 86_400_000_010 yesterday registry)
    ↔ (Mem digest (jobs registry) × IsDue 86_400_000_010 yesterday digest)
mem-due_example = mem-due 86_400_000_010 yesterday registry digest
