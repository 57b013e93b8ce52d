-- ===== src/Backtest/Holdout.antt =====
-- src/market_trader/backtest/holdout.py: the ledger of sealed looks. `date_text` is `str` of the date.
use Prim.Native.String.{◌++◌ as append_text}
use market_trader.Prelude.{
  ℕ, String, Bool, true, false, Option, none, some, List, [], ◌∷◌, filter, ltb, if◌then◌else◌,
}
use market_trader.Prelude.Eq.{◌==◌, string_eq}
use market_trader.Prelude.Dict.{lookup}
use market_trader.Float.{Float, nought}
use market_trader.Core.Time.{Instant}
use market_trader.Core.Schema.{Observation, Value, boolean, integer, number}
use market_trader.Core.Identity.{Identity, with_deterministic_id}
use market_trader.Storage.Bitemporal.{Store, by_dataset, upsert_many, as_of}

abbrev pub holdout_ledger_dataset : String
holdout_ledger_dataset = "validation.holdout_ledger"

pub record HoldoutLook (F : Type 0) : Type 0 where
  pub signal : String
  pub decided_at : Instant
  pub n_dates : ℕ
  pub mean_ic : F
  pub t_stat : F
  pub passed : Bool

module _ {F : Type 0} where
  -- `min(rows, key=lambda r: r.event_time)`: the first of the earliest.
  unfoldable pub earliest_of : Observation F → List (Observation F) → Observation F
  earliest_of best [] = best
  earliest_of best (o ∷ rows) =
      earliest_of (if ltb o.event_time best.event_time then o else best) rows

  abbrev pub count_or_zero : Option (Value F) → ℕ
  count_or_zero none = 0
  count_or_zero (some v) = elim v [ integer n ↦ n | _ ↦ 0 ]

  abbrev pub flag_or_false : Option (Value F) → Bool
  flag_or_false none = false
  flag_or_false (some v) = elim v [ boolean b ↦ b | _ ↦ false ]

module _ {F : Type 0} ⦃f : Float F⦄ where
  abbrev pub number_or_zero : Option (Value F) → F
  number_or_zero none = nought
  number_or_zero (some v) = elim v [ number x ↦ x | _ ↦ nought ]

  -- The reads are for the types that `record_look` writes.
  unfoldable pub look_of : String → Observation F → HoldoutLook F
  look_of signal o = record {
    signal = signal;
    decided_at = o.event_time;
    n_dates = count_or_zero (lookup "n_dates" o.value);
    mean_ic = number_or_zero (lookup "mean_ic" o.value);
    t_stat = number_or_zero (lookup "t_stat" o.value);
    passed = flag_or_false (lookup "passed" o.value);
  }

  unfoldable pub first_look : String → List (Observation F) → Option (HoldoutLook F)
  first_look signal [] = none
  first_look signal (o ∷ rows) = some (look_of signal (earliest_of o rows))

  unfoldable pub prior_look : String → Instant → Store F → Option (HoldoutLook F)
  prior_look signal at s =
      first_look signal
        (filter (λ o. o.entity_id == signal) (as_of at (by_dataset holdout_ledger_dataset) s))

  -- `_record`
  unfoldable pub record_look :
      Identity → (Instant → String) → Instant → HoldoutLook F → Store F → Store F
  record_look lib date_text now look s =
      upsert_many
        (with_deterministic_id lib (record {
          source = "validation";
          dataset = holdout_ledger_dataset;
          entity_type = "signal";
          entity_id = look.signal;
          ref = some (append_text "holdout:" (date_text look.decided_at));
          event_time = look.decided_at;
          knowledge_time = look.decided_at;
          value =
              ("n_dates", integer look.n_dates)
              ∷ ("mean_ic", number look.mean_ic)
              ∷ ("t_stat", number look.t_stat)
              ∷ ("passed", boolean look.passed)
              ∷ [];
          metadata = [];
          revision = 0;
          observation_id = 0;
          ingested_at = now;
        })
          ∷ [])
        s

  unfoldable pub confirm_on_holdout :
      Identity
      → (Instant → String)
      → Instant
      → HoldoutLook F
      → Store F
      → (HoldoutLook F × Bool) × Store F
  confirm_on_holdout lib date_text now candidate s =
      elim (prior_look candidate.signal candidate.decided_at s) [
        | some existing ↦ ((existing, true), s)
        | none ↦ ((candidate, false), record_look lib date_text now candidate s)
      ]
