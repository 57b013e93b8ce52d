-- ===== src/Runtime/InsiderSleeve/Positions.antt =====
-- The insider sleeve's state in the store, and what is read back of it.
use Prim.Native.String.{◌++◌ as append_text}
use market_trader.Prelude.{
  ℕ, String, none, some, List, [], ◌∷◌, Result, ok, err, leb, if◌then◌else◌,
}
use market_trader.Prelude.Eq.{string_eq}
use market_trader.Prelude.Dict.{Dict, lookup, insert}
use market_trader.Float.{Float}
use market_trader.Core.Time.{Instant}
use market_trader.Core.Schema.{Observation, Value, number, integer, text}
use market_trader.Storage.Bitemporal.{Store, by_dataset, as_of}
use market_trader.Execution.Engine.{Env}
use market_trader.Runtime.Sleeve.{
  Texts, StateError, bad_exit_by, read_instant, persist, text_at, number_at, is_status,
}

abbrev pub sleeve_dataset : String
sleeve_dataset = "sleeve.insider_position"

pub record InsiderSleevePosition (F : Type 0) : Type 0 where
  pub symbol : String
  pub entry_price : F
  pub exit_by : Instant
  pub n_buys : ℕ

module _ {F : Type 0} where
  abbrev pub records : Store F → Instant → List (Observation F)
  records s at = as_of at (by_dataset sleeve_dataset) s

  -- The loop of `_latest_by_symbol`: of two rows at one time the last stays.
  unfoldable pub latest_by_symbol :
      List (Observation F) → Dict String (Observation F) → Dict String (Observation F)
  latest_by_symbol [] latest = latest
  latest_by_symbol (o ∷ os) latest = elim (lookup o.entity_id latest) [
    | none ↦ latest_by_symbol os (insert o.entity_id o latest)
    | some prev ↦
        latest_by_symbol os
          (if leb prev.event_time o.event_time then insert o.entity_id o latest else latest)
  ]

  -- `int(o.value.get(key, 0))`, of an integer.
  abbrev pub integer_at : String → Dict String (Value F) → ℕ
  integer_at key d = elim (lookup key d) [ none ↦ 0 | some v ↦ elim v [ integer n ↦ n | _ ↦ 0 ] ]

  -- The row that `record_open` writes.
  unfoldable pub open_row : Texts → Env → String → F → Instant → ℕ → Observation F
  open_row texts env symbol entry_price exit_by n_buys = record {
    source = "sleeve";
    dataset = sleeve_dataset;
    entity_type = "equity";
    entity_id = symbol;
    ref = some (append_text "open:" (texts.date_text env.as_of));
    event_time = env.as_of;
    knowledge_time = env.as_of;
    value =
        ("status", text "open")
        ∷ ("entry_price", number entry_price)
        ∷ ("exit_by", text (env.identity.isoformat exit_by))
        ∷ ("n_buys", integer n_buys)
        ∷ [];
    metadata = [];
    revision = 0;
    observation_id = 0;
    ingested_at = env.now;
  }

  unfoldable pub record_open : Texts → Env → String → F → Instant → ℕ → Store F → Store F
  record_open texts env symbol entry_price exit_by n_buys s =
      persist env (open_row texts env symbol entry_price exit_by n_buys) s

  -- The row that `record_close` writes.
  unfoldable pub close_row : Texts → Env → String → String → Observation F
  close_row texts env symbol reason = record {
    source = "sleeve";
    dataset = sleeve_dataset;
    entity_type = "equity";
    entity_id = symbol;
    ref =
        some
          (append_text "close:" (append_text reason (append_text ":" (texts.date_text env.as_of))));
    event_time = env.as_of;
    knowledge_time = env.as_of;
    value = ("status", text "closed") ∷ ("reason", text reason) ∷ [];
    metadata = [];
    revision = 0;
    observation_id = 0;
    ingested_at = env.now;
  }

  unfoldable pub record_close : Texts → Env → String → String → Store F → Store F
  record_close texts env symbol reason s = persist env (close_row texts env symbol reason) s

module _ {F : Type 0} ⦃f : Float F⦄ where
  -- The position of an open row; a row without a readable `exit_by` raises.
  unfoldable pub position_of :
      Texts → String → Observation F → Result StateError (InsiderSleevePosition F)
  position_of texts symbol o = elim (text_at "exit_by" o.value) [
    | none ↦ err bad_exit_by
    | some t ↦ elim (read_instant texts t) [
      | err e ↦ err e
      | ok exit_by ↦ ok (record {
        symbol = symbol;
        entry_price = number_at "entry_price" o.value;
        exit_by = exit_by;
        n_buys = integer_at "n_buys" o.value;
      })
    ]
  ]

  unfoldable pub open_positions :
      Texts
      → Dict String (Observation F)
      → Result StateError (Dict String (InsiderSleevePosition F))
  open_positions texts [] = ok []
  open_positions texts ((symbol, o) ∷ rest) =
      let later = open_positions texts rest in
      if is_status "open" o
      then elim (position_of texts symbol o) [
        | err e ↦ err e
        | ok p ↦ elim later [ err e ↦ err e | ok ps ↦ ok ((symbol, p) ∷ ps) ]
      ]
      else later

  unfoldable pub active_insider_positions :
      Texts → Store F → Instant → Result StateError (Dict String (InsiderSleevePosition F))
  active_insider_positions texts s at = open_positions texts (latest_by_symbol (records s at) [])
