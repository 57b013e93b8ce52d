-- ===== src/Portfolio/Risk/Tests.antt =====
-- The breaker over four cycles: the peak is 120, 95 is in drawdown of 20%, and 130 does not clear it.
use market_trader.Prelude.{◌≡◌, refl, true, false, some, List, [], ◌∷◌, ◌⊎◌, ◌↔◌}
use market_trader.Float.Fixed.{Fixed, whole, cents, fixed_float, Fixed-IsOrdered}
use market_trader.Portfolio.Risk.{Breaker, update}
use market_trader.Portfolio.Risk.Drawdown.{
  update_all, Trip, update_all-tripped_iff, IsPeak, update_all-IsPeak,
}

abbrev fresh : Breaker Fixed
fresh = record { max_drawdown = cents 20; peak = some (whole 100); tripped = false }

abbrev equities : List Fixed
equities = whole 110 ∷ whole 120 ∷ whole 95 ∷ whole 130 ∷ []

stays_tripped : (update_all equities fresh).tripped ≡ true
unfolding update_all update
stays_tripped = refl

update_all-tripped_iff_example :
    ((update_all equities fresh).tripped ≡ true) ↔ ((false ≡ true) ⊎ Trip equities fresh)
update_all-tripped_iff_example = update_all-tripped_iff equities fresh

update_all-IsPeak_example :
    IsPeak Fixed-IsOrdered (whole 100) equities (update_all equities fresh).peak
update_all-IsPeak_example =
    update_all-IsPeak Fixed-IsOrdered equities fresh (whole 100) refl refl
      (refl, (refl, (refl, (refl, tt))))
