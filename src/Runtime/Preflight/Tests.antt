-- ===== src/Runtime/Preflight/Tests.antt =====
-- The checks with a database that is down.
use market_trader.Prelude.{◌≡◌, ◌↔◌, ◌⊎◌, refl, some, false, ℕ, Bool}
use market_trader.Prelude.Sort.{IsSorted, sort_by, insert_sorted}
use market_trader.Float.Fixed.{whole, fixed_float}
use market_trader.Execution.Engine.Fixture.{settings}
use market_trader.Runtime.Preflight.{
  fail, level_le, has_keys, preflight_checks, worst_level, preflight_checks_fail, all_checks,
  universe_level, capital_checks, wasted_checks,
}

preflight_checks_fail_example :
    ((worst_level (preflight_checks settings (some (whole 1000)) false 5) ≡ fail)
      ↔ ((has_keys settings ≡ false) ⊎ ((◌≡◌ {A = Bool} false false) ⊎ (◌≡◌ {A = ℕ} 5 0))))
    × IsSorted level_le (preflight_checks settings (some (whole 1000)) false 5)
preflight_checks_fail_example = preflight_checks_fail settings (some (whole 1000)) false 5

is_down : worst_level (preflight_checks settings (some (whole 1000)) false 5) ≡ fail
unfolding worst_level preflight_checks all_checks universe_level capital_checks wasted_checks
    sort_by insert_sorted
is_down = refl
