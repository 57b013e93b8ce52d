-- ===== src/Feedback/PredictionLog.antt =====
-- src/market_trader/feedback/prediction_log.py: predictions as observations, and back.
pub mod Stored
mod Tests
use market_trader.Prelude.{
  ℕ, ◌≡◌, refl, String, Bool, true, Option, none, some, List, [], ◌∷◌, map, filter, length, arith,
}
use market_trader.Prelude.Eq.{◌==◌, string_eq}
use market_trader.Prelude.Dict.{Dict, lookup}
use market_trader.Core.Time.{Instant}
use market_trader.Core.Schema.{Observation, Value, number, integer, text, numbers}
use market_trader.Core.Identity.{Identity, with_deterministic_id}
use market_trader.Storage.Bitemporal.{Store, by_dataset, upsert_many, as_of}

-- What follows a read that did not fail.
infixl 5 ◌>>=◌
abbrev ◌>>=◌ : {A B : Type 0} → Option A → (A → Option B) → Option B
none >>= k = none
some a >>= k = k a

abbrev pub prediction_dataset : String
prediction_dataset = "forecast.prediction"

pub record PredictionRecord (F : Type 0) : Type 0 where
  pub as_of : Instant
  pub symbol : String
  pub probability : F
  pub horizon_days : ℕ
  pub model_version : String
  pub features : Dict String F

module _ {F : Type 0} where
  -- `ingested_at` is the clock at `now`.
  unfoldable pub to_observation : Identity → Instant → PredictionRecord F → Observation F
  to_observation lib now rec = with_deterministic_id lib (record {
    source = "forecast";
    dataset = prediction_dataset;
    entity_type = "equity";
    entity_id = rec.symbol;
    ref = some rec.model_version;
    event_time = rec.as_of;
    knowledge_time = rec.as_of;
    value =
        ("probability", number rec.probability)
        ∷ ("horizon_days", integer rec.horizon_days)
        ∷ ("model_version", text rec.model_version)
        ∷ [];
    metadata = ("features", numbers rec.features) ∷ [];
    revision = 0;
    observation_id = 0;
    ingested_at = now;
  })

  -- The reads of a value under a key, for the types that `to_observation` writes; `none` stands for
  -- the `KeyError` of a missing key and for what a value of another type would do.
  abbrev pub number_at : String → Dict String (Value F) → Option F
  number_at key d = elim (lookup key d) [
    | none ↦ none
    | some v ↦ elim v [ number x ↦ some x | _ ↦ none ]
  ]

  abbrev pub integer_at : String → Dict String (Value F) → Option ℕ
  integer_at key d = elim (lookup key d) [
    | none ↦ none
    | some v ↦ elim v [ integer n ↦ some n | _ ↦ none ]
  ]

  abbrev pub text_at : String → Dict String (Value F) → Option String
  text_at key d = elim (lookup key d) [
    | none ↦ none
    | some v ↦ elim v [ text s ↦ some s | _ ↦ none ]
  ]

  -- `o.metadata.get("features", {})`
  abbrev pub features_of : Dict String (Value F) → Option (Dict String F)
  features_of d = elim (lookup "features" d) [
    | none ↦ some []
    | some v ↦ elim v [ numbers f ↦ some f | _ ↦ none ]
  ]

  unfoldable pub from_observation : Observation F → Option (PredictionRecord F)
  from_observation o = do
    probability ← number_at "probability" o.value
    horizon_days ← integer_at "horizon_days" o.value
    model_version ← text_at "model_version" o.value
    features ← features_of o.metadata
    some (record {
      as_of = o.event_time;
      symbol = o.entity_id;
      probability = probability;
      horizon_days = horizon_days;
      model_version = model_version;
      features = features;
    })

  unfoldable pub log_predictions :
      Identity → Instant → List (PredictionRecord F) → Store F → ℕ × Store F
  log_predictions lib now records s =
      let observations = map (to_observation lib now) records in
      (length observations, upsert_many observations s)

  -- Each row is read; a row that is not a prediction's fails the load.
  unfoldable pub read_all : List (Observation F) → Option (List (PredictionRecord F))
  read_all [] = some []
  read_all (o ∷ os) = let rest = read_all os in do r ← from_observation o; rs ← rest; some (r ∷ rs)

  abbrev pub of_version : Option String → List (PredictionRecord F) → List (PredictionRecord F)
  of_version none rs = rs
  of_version (some version) rs = filter (λ r. r.model_version == version) rs

  unfoldable pub load_predictions :
      Instant → Option String → Store F → Option (List (PredictionRecord F))
  load_predictions at version s = do
    records ← read_all (as_of at (by_dataset prediction_dataset) s)
    some (of_version version records)

  -- A prediction reads back from the observation that it is stored as, every field of it.
  pub from-to_observation :
      (lib : Identity) (now : Instant) (rec : PredictionRecord F)
      → from_observation (to_observation lib now rec) ≡ some rec
  unfolding from_observation to_observation with_deterministic_id
  from-to_observation lib now rec = refl
