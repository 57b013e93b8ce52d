-- ===== src/Core/Time.antt =====
-- src/market_trader/core/time.py. An instant is its microseconds since the start of year 1, UTC;
-- a `datetime` is a wall clock reading with or without an offset from UTC.
mod Tests
use market_trader.Prelude.{
  ℕ, ◌+◌, ◌-◌, ◌*◌, ◌≤◌, ◌<◌, ◌≡◌, Option, none, some, Result, ok, err, arith, ltb, leb,
  if◌then◌else◌,
}

-- An aware UTC `datetime`.
abbrev pub Instant : Type 0
Instant = ℕ

-- `utcoffset()`: ahead of UTC or behind it.
pub data Offset : Type 0 where
  ahead behind : ℕ → Offset

pub record DateTime : Type 0 where
  pub wall : ℕ
  pub tzinfo : Option Offset

-- The `ValueError` for a naive datetime, and the `OverflowError` of `astimezone` outside the years
-- 1 to 9999.
pub data TimeError : Type 0 where
  naive_datetime out_of_range : TimeError

-- The end of year 9999, where `datetime` ends: 3652059 days.
abbrev pub end_of_time : ℕ
end_of_time = 3652059 * 86_400_000_000

-- `dt.astimezone(UTC)` for an aware datetime
unfoldable pub to_utc : ℕ → Offset → Result TimeError Instant
to_utc wall (ahead n) = if ltb wall n then err out_of_range else ok (wall - n)
to_utc wall (behind n) = if leb end_of_time (wall + n) then err out_of_range else ok (wall + n)

unfoldable pub ensure_utc : DateTime → Result TimeError Instant
ensure_utc dt = elim dt.tzinfo [ none ↦ err naive_datetime | some off ↦ to_utc dt.wall off ]

unfoldable pub to_utc_lenient : DateTime → Result TimeError Instant
to_utc_lenient dt = elim dt.tzinfo [ none ↦ ok dt.wall | some off ↦ to_utc dt.wall off ]

-- `ensure_utc(dt).replace(tzinfo=None)`
unfoldable pub naive_utc : DateTime → Result TimeError DateTime
unfolding ensure_utc
naive_utc dt = elim (ensure_utc dt) [
  | ok t ↦ ok (record { wall = t; tzinfo = none })
  | err e ↦ err e
]

-- A date is its number of days since the start of year 1; the defaults are 21:00.
pub day_close : ℕ → ℕ → ℕ → Instant
day_close d hour minute = d * 86_400_000_000 + (hour * 60 + minute) * 60_000_000

-- What is written to the database as naive UTC reads back as the same instant, whatever the offset.
pub storage_roundtrip : (dt n : DateTime) → naive_utc dt ≡ ok n → to_utc_lenient n ≡ ensure_utc dt
unfolding naive_utc to_utc_lenient
storage_roundtrip dt n h = ground arith

-- Closes of successive days are ordered, and a day's close lies inside the day.
day_close_mono :
    (d d' hour minute hour' minute' : ℕ)
    → d < d'
    → hour < 24
    → minute < 60
    → day_close d hour minute < day_close d' hour' minute'
unfolding day_close
day_close_mono d d' hour minute hour' minute' h a b = grind arith
