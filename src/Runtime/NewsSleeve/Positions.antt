-- ===== src/Runtime/NewsSleeve/Positions.antt =====
-- The sleeve's state in the store: `record_open`, `record_close`, and what is read back of them.
use Prim.Native.String.{◌++◌ as append_text}
use market_trader.Prelude.{
  ℕ, String, none, some, List, [], ◌∷◌, Result, ok, err, map, ltb, if◌then◌else◌,
}
use market_trader.Prelude.Eq.{◌==◌, string_eq}
use market_trader.Prelude.Dict.{Dict, lookup, insert}
use market_trader.Float.{Float}
use market_trader.Core.Time.{Instant}
use market_trader.Core.Schema.{Observation, number, text}
use market_trader.Storage.Bitemporal.{Store, by_dataset, as_of}
use market_trader.Execution.Engine.{Env}
use market_trader.Feedback.PredictionLog.{log_predictions}
use market_trader.Runtime.Sleeve.{
  Texts, StateError, bad_exit_by, read_instant, persist, text_at, number_at, is_status,
}
use market_trader.Runtime.NewsSleeve.Detect.{NewsEvent}

abbrev pub sleeve_dataset : String
sleeve_dataset = "sleeve.news_position"

pub record SleevePosition (F : Type 0) : Type 0 where
  pub symbol : String
  pub entry_price : F
  pub exit_by : Instant
  pub story_hash : String

module _ {F : Type 0} where
  abbrev pub records : Store F → Instant → List (Observation F)
  records s at = as_of at (by_dataset sleeve_dataset) s

  -- The loop of `_latest_by_symbol`: of two rows at one time the first stays.
  unfoldable pub latest_by_symbol :
      List (Observation F) → Dict String (Observation F) → Dict String (Observation F)
  latest_by_symbol [] latest = latest
  latest_by_symbol (o ∷ os) latest = elim (lookup o.entity_id latest) [
    | none ↦ latest_by_symbol os (insert o.entity_id o latest)
    | some cur ↦
        latest_by_symbol os
          (if ltb cur.event_time o.event_time then insert o.entity_id o latest else latest)
  ]

  abbrev pub hash_of : Observation F → String
  hash_of o = elim (text_at "story_hash" o.value) [ none ↦ "" | some t ↦ t ]

  -- The loop of `acted_story_hashes`.
  unfoldable pub hashes_of : List (Observation F) → List String
  hashes_of [] = []
  hashes_of (o ∷ os) = let rest = hashes_of os in if hash_of o == "" then rest else hash_of o ∷ rest

  unfoldable pub acted_story_hashes : Store F → Instant → List String
  acted_story_hashes s at = hashes_of (records s at)

  unfoldable pub last_action_times : Store F → Instant → Dict String Instant
  last_action_times s at =
      map (λ (kv : String × Observation F). (kv.0, kv.1.event_time))
        (latest_by_symbol (records s at) [])

  -- The row that `record_close` writes.
  unfoldable pub close_row : Env → String → String → String → Observation F
  close_row env symbol story_hash reason = record {
    source = "sleeve";
    dataset = sleeve_dataset;
    entity_type = "equity";
    entity_id = symbol;
    ref = some (append_text story_hash (append_text ":close:" reason));
    event_time = env.as_of;
    knowledge_time = env.as_of;
    value =
        ("status", text "closed") ∷ ("story_hash", text story_hash) ∷ ("reason", text reason) ∷ [];
    metadata = [];
    revision = 0;
    observation_id = 0;
    ingested_at = env.now;
  }

  unfoldable pub record_close : Env → String → String → String → Store F → Store F
  record_close env symbol story_hash reason s =
      persist env (close_row env symbol story_hash reason) s

  -- The row that `record_open` writes.
  unfoldable pub open_row : Env → String → F → Instant → String → Observation F
  open_row env symbol entry_price exit_by story_hash = record {
    source = "sleeve";
    dataset = sleeve_dataset;
    entity_type = "equity";
    entity_id = symbol;
    ref = some story_hash;
    event_time = env.as_of;
    knowledge_time = env.as_of;
    value =
        ("status", text "open")
        ∷ ("entry_price", number entry_price)
        ∷ ("exit_by", text (env.identity.isoformat exit_by))
        ∷ ("story_hash", text story_hash)
        ∷ [];
    metadata = [];
    revision = 0;
    observation_id = 0;
    ingested_at = env.now;
  }

  unfoldable pub record_open : Env → String → F → Instant → String → Store F → Store F
  record_open env symbol entry_price exit_by story_hash s =
      persist env (open_row env symbol entry_price exit_by story_hash) s

  -- `_log_decision`
  unfoldable pub log_decision : Env → NewsEvent F → ℕ → Store F → Store F
  log_decision env ev hold_days s =
      (log_predictions env.identity env.now
        (record {
          as_of = env.as_of;
          symbol = ev.symbol;
          probability = ev.confidence;
          horizon_days = hold_days;
          model_version = "news_sleeve";
          features = ("tone", ev.tone) ∷ ("surge", ev.surge) ∷ ("confidence", ev.confidence) ∷ [];
        }
          ∷ [])
        s).1

module _ {F : Type 0} ⦃f : Float F⦄ where
  -- The position of an open row; a row without a readable `exit_by` raises.
  unfoldable pub position_of : Texts → String → Observation F → Result StateError (SleevePosition F)
  position_of texts symbol o = elim (text_at "exit_by" o.value) [
    | none ↦ err bad_exit_by
    | some t ↦ elim (read_instant texts t) [
      | err e ↦ err e
      | ok exit_by ↦ ok (record {
        symbol = symbol;
        entry_price = number_at "entry_price" o.value;
        exit_by = exit_by;
        story_hash = hash_of o;
      })
    ]
  ]

  unfoldable pub open_positions :
      Texts → Dict String (Observation F) → Result StateError (Dict String (SleevePosition F))
  open_positions texts [] = ok []
  open_positions texts ((symbol, o) ∷ rest) =
      let later = open_positions texts rest in
      if is_status "open" o
      then elim (position_of texts symbol o) [
        | err e ↦ err e
        | ok p ↦ elim later [ err e ↦ err e | ok ps ↦ ok ((symbol, p) ∷ ps) ]
      ]
      else later

  unfoldable pub active_sleeve_positions :
      Texts → Store F → Instant → Result StateError (Dict String (SleevePosition F))
  active_sleeve_positions texts s at = open_positions texts (latest_by_symbol (records s at) [])
