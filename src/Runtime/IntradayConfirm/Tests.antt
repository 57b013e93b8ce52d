-- ===== src/Runtime/IntradayConfirm/Tests.antt =====
-- Two strong readings in a row act on the second one; a third within the cooldown does not.
use market_trader.Prelude.{String, ◌≡◌, refl, true, none, some, [], ◌∷◌}
use market_trader.Prelude.Eq.{string_eq}
use market_trader.Prelude.Dict.{Dict}
use market_trader.Float.Fixed.{Fixed, whole, cents, fixed_float}
use market_trader.Runtime.IntradayConfirm.{
  Config, Reading, NameState, up, flat, push, direction_of, is_cooling, passes, state_of, confirm,
  confirm_cools,
}

abbrev cfg : Config Fixed
cfg = record {
  persistence = 2;
  sigma_mult = whole 2;
  volume_mult = cents 150;
  require_daily_agreement = true;
  cooldown_minutes = whole 30;
}

abbrev strong : Reading Fixed
strong = record {
  signal = whole 5;
  recent_vol = whole 1;
  volume_ratio = whole 2;
  daily_signal = whole 1;
}

abbrev once : Dict String NameState
once = ("AAPL", record { directions = up ∷ []; last_action = none }) ∷ []

acts : (confirm cfg "AAPL" strong 100 once).0 ≡ up
unfolding confirm passes push direction_of is_cooling
acts = refl

confirm_cools_example :
    let after = (confirm cfg "AAPL" strong 100 once).1 in
    ((confirm cfg "AAPL" strong 60_000_000 after).0 ≡ flat)
    × ((state_of "AAPL" (confirm cfg "AAPL" strong 60_000_000 after).1).last_action ≡ some 100)
unfolding confirm passes push direction_of is_cooling
confirm_cools_example = confirm_cools cfg "AAPL" strong 100 once strong 60_000_000 refl refl
