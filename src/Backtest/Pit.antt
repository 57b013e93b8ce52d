-- ===== src/Backtest/Pit.antt =====
-- src/market_trader/backtest/pit.py: `observations_to_price_frame`, the pivot of price rows into a
-- frame with a column for each name, from which a row or column without any value is dropped.
use market_trader.Prelude.{
  String, ◌&&◌, Option, none, some, List, [], ◌∷◌, map, any, leb, nat_beq, if◌then◌else◌,
}
use market_trader.Prelude.Eq.{◌==◌, string_eq}
use market_trader.Prelude.Sort.{sort_by}
use market_trader.Prelude.Dict.{Dict, lookup}
use market_trader.Float.{Float}
use market_trader.Core.Time.{Instant}
use market_trader.Core.Schema.{Observation, Value, number, integer}
use market_trader.Universe.PitUniverse.{text_le, distinct}

-- Columns by name, their cells in order of the event time; `none` is NaN.
abbrev pub Frame : Type 0 → Type 0
Frame F = Dict String (List (Option F))

pub record PriceRecord (F : Type 0) : Type 0 where
  pub event_time : Instant
  pub entity_id : String
  pub val : F

-- The distinct numbers.
unfoldable pub distinct_times : List Instant → List Instant
distinct_times [] = []
distinct_times (t ∷ ts) =
    let rest = distinct_times ts in if any (λ u. nat_beq u t) ts then rest else t ∷ rest

module _ {F : Type 0} ⦃f : Float F⦄ where
  -- `float(v)` of a number that is not `None`.
  abbrev pub cell_of : Option (Value F) → Option F
  cell_of none = none
  cell_of (some v) = elim v [ number x ↦ some x | integer n ↦ some (f.lit n 0) | _ ↦ none ]

  -- The loop over the observations; the pivot leaves NaN out.
  unfoldable pub price_records : List (Observation F) → List (PriceRecord F)
  price_records [] = []
  price_records (o ∷ os) =
      let rest = price_records os in
      elim (cell_of (lookup "close" o.value)) [
        | none ↦ rest
        | some x ↦
            if f.is_nan x
            then rest
            else record { event_time = o.event_time; entity_id = o.entity_id; val = x } ∷ rest
      ]

  -- `aggfunc="last"`
  unfoldable pub last_at : Instant → String → List (PriceRecord F) → Option F
  last_at t symbol [] = none
  last_at t symbol (r ∷ rs) =
      let later = last_at t symbol rs in
      elim later [
        | some x ↦ some x
        | none ↦ if nat_beq r.event_time t && r.entity_id == symbol then some r.val else none
      ]

  unfoldable pub observations_to_price_frame : List (Observation F) → Frame F
  observations_to_price_frame os =
      let records = price_records os in
      let times =
        sort_by leb (distinct_times (map (λ (r : PriceRecord F). r.event_time) records)) in
      map (λ s. (s, map (λ t. last_at t s records) times))
        (sort_by text_le (distinct (map (λ (r : PriceRecord F). r.entity_id) records)))
