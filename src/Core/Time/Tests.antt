-- ===== src/Core/Time/Tests.antt =====
-- Instants at concrete inputs.
use market_trader.Prelude.{◌≡◌, refl, none, some}
use market_trader.Core.Time.{
  DateTime, behind, to_utc, ensure_utc, to_utc_lenient, naive_utc, storage_roundtrip,
}

-- Noon, five hours behind.
abbrev noon : DateTime
noon = record { wall = 43_200_000_000; tzinfo = some (behind 18_000_000_000) }

storage_roundtrip_example :
    to_utc_lenient (record { wall = 61_200_000_000; tzinfo = none }) ≡ ensure_utc noon
unfolding naive_utc ensure_utc to_utc
storage_roundtrip_example =
    storage_roundtrip noon (record { wall = 61_200_000_000; tzinfo = none }) refl
