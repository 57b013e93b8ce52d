-- ===== src/Runtime/Cycle/Exits.antt =====
-- Which holdings the cycle cuts: the hard floor, the trailing stop and the broken thesis, which reads
-- src/market_trader/features/llm.py. A set of names is a list.
use market_trader.Prelude.{
  ℕ, ◌+◌, ◌*◌, String, Bool, true, false, not, ◌&&◌, Option, none, some, List, [], ◌∷◌, map, filter,
  leb, ltb, if◌then◌else◌,
}
use market_trader.Prelude.Eq.{string_eq}
use market_trader.Prelude.Dict.{Dict, lookup, insert}
use market_trader.Float.{Float, nought, one, truthy}
use market_trader.Core.Time.{Instant}
use market_trader.Core.Schema.{Observation}
use market_trader.Storage.Bitemporal.{Store, by_dataset, as_of}
use market_trader.Execution.Broker.{Position}
use market_trader.Memory.Taxonomy.{day}
use market_trader.Backtest.Pit.{Frame, observations_to_price_frame}
use market_trader.Portfolio.Sizing.{tail_of}
use market_trader.Runtime.Sleeve.{number_at, price_dataset}

abbrev pub llm_signal_dataset : String
llm_signal_dataset = "llm.signal"

module _ {F : Type 0} where
  -- The cells that are there.
  unfoldable pub present : List (Option F) → List F
  present [] = []
  present (c ∷ cs) = let rest = present cs in elim c [ none ↦ rest | some x ↦ x ∷ rest ]

module _ {F : Type 0} ⦃f : Float F⦄ where
  -- `Series.max()` of at least one number.
  unfoldable pub peak_of : F → List F → F
  peak_of best [] = best
  peak_of best (x ∷ xs) = peak_of (if f.lt best x then x else best) xs

  -- `px / base - 1.0 <= -pct`
  abbrev pub is_down : F → F → F → Bool
  is_down px base pct = f.le (f.sub (f.div px base) one) (f.neg pct)

  abbrev pub is_below_entry : F → Dict String F → Position F → Bool
  is_below_entry pct prices p = elim (lookup p.symbol prices) [
    | none ↦ false
    | some px ↦
        truthy px && f.lt nought p.avg_price && f.lt nought p.qty && is_down px p.avg_price pct
  ]

  -- `_stop_losses`
  unfoldable pub stop_losses : List (Position F) → Dict String F → F → List String
  stop_losses positions prices pct =
      if f.le pct nought
      then []
      else map (λ (p : Position F). p.symbol) (filter (is_below_entry pct prices) positions)

  abbrev pub is_off_peak : F → F → List F → Bool
  is_off_peak pct px [] = false
  is_off_peak pct px (x ∷ xs) = f.lt nought (peak_of x xs) && is_down px (peak_of x xs) pct

  abbrev pub is_broken_down : F → Frame F → Dict String F → Position F → Bool
  is_broken_down pct panel prices p = elim (lookup p.symbol prices) [
    | none ↦ false
    | some px ↦ elim (lookup p.symbol panel) [
      | none ↦ false
      | some column ↦
          not (f.le p.qty nought) && truthy px && is_off_peak pct px (present (tail_of 60 column))
    ]
  ]

  -- `_trailing_stops`; an empty panel has no column.
  unfoldable pub trailing_stops :
      Store F → Instant → List (Position F) → Dict String F → F → List String
  trailing_stops s at positions prices pct =
      let panel = observations_to_price_frame (as_of at (by_dataset price_dataset) s) in
      if f.le pct nought
      then []
      else map (λ (p : Position F). p.symbol) (filter (is_broken_down pct panel prices) positions)

  -- The loop of `LLMNewsSentiment.compute`: of two reads at one time the first stays.
  unfoldable pub latest_reads :
      Instant → ℕ → List (Observation F) → Dict String (Instant × F) → Dict String (Instant × F)
  latest_reads at window [] latest = latest
  latest_reads at window (o ∷ os) latest =
      let value = f.mul (number_at "score" o.value) (number_at "confidence" o.value) in
      let is_later : Bool = elim (lookup o.entity_id latest) [
        | none ↦ true
        | some prev ↦ ltb prev.0 o.knowledge_time
      ] in
      latest_reads at window os (
        if leb (o.knowledge_time + window) at
        then latest
        else if is_later
        then insert o.entity_id (o.knowledge_time, value) latest
        else latest)

  -- `float(sentiment.get(s, 0.0))`, over ten days; NaN is filled with zero.
  unfoldable pub sentiment_of : Store F → Instant → String → F
  sentiment_of s at symbol =
      let latest = latest_reads at (10 * day) (as_of at (by_dataset llm_signal_dataset) s) [] in
      elim (lookup symbol latest) [
        | none ↦ nought
        | some read ↦ if f.is_nan read.1 then nought else read.1
      ]

  -- `_thesis_break_exits`
  unfoldable pub thesis_break_exits : Store F → Instant → List (Position F) → F → List String
  thesis_break_exits s at positions threshold =
      let held =
        map (λ (p : Position F). p.symbol)
          (filter (λ (p : Position F). f.lt nought p.qty) positions) in
      if f.le threshold nought
      then []
      else filter (λ n. f.le (sentiment_of s at n) (f.neg threshold)) held
