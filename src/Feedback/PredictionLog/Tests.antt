-- ===== src/Feedback/PredictionLog/Tests.antt =====
-- A prediction that is logged into a store with a price.
use market_trader.Prelude.{ℕ, ◌≡◌, ◌≢◌, ap, refl, some, List, [], ◌∷◌, Mem, inl, inr, arith}
use market_trader.Prelude.Eq.{string_eq}
use market_trader.Core.Schema.{LogicalKey, Observation, logical_key}
use market_trader.Core.Identity.{Identity, with_deterministic_id}
use market_trader.Storage.Bitemporal.{Store, upsert_many, add_many, add}
use market_trader.Feedback.PredictionLog.{
  PredictionRecord, to_observation, from-to_observation, load_predictions, log_predictions,
}
use market_trader.Feedback.PredictionLog.Stored.{logged, load-log_predictions}

abbrev lib : Identity
lib = record { uuid5 = λ s. 7; isoformat = λ t. "t"; str = λ n. "0" }

abbrev prediction : PredictionRecord ℕ
prediction = record {
  as_of = 100;
  symbol = "AAPL";
  probability = 40;
  horizon_days = 5;
  model_version = "v1";
  features = ("momentum", 3) ∷ [];
}

abbrev price : Observation ℕ
price = record (to_observation lib 101 prediction) { dataset = "price.ohlcv"; observation_id = 3 }

abbrev store : Store ℕ
store = (3, price) ∷ []

log_one : logged lib 101 prediction store ≡ (3, price) ∷ (7, to_observation lib 101 prediction) ∷ []
unfolding log_predictions upsert_many add_many add to_observation with_deterministic_id
log_one = refl

other : logical_key price ≢ logical_key (to_observation lib 101 prediction)
unfolding to_observation with_deterministic_id
other h = cc (ap (λ (k : LogicalKey). k.1) h)

load-log_predictions_example :
    (rs : List (PredictionRecord ℕ)) × (load_predictions 200
        (some "v1")
        (logged lib 101 prediction store)
      ≡ some rs)
    × Mem prediction rs
load-log_predictions_example =
    load-log_predictions lib 101 200 prediction (some "v1") store (omega arith) (inr refl)
      (rw log_one (λ o m e. elim m [
        | inl p ↦ absurd (cc (p, e))
        | inr (inl p) ↦ (prediction, rw p (from-to_observation lib 101 prediction))
        | inr (inr n) ↦ absurd n
      ]))
      (rw log_one (λ o m e. elim m [
        | inl p ↦ absurd (other (rw p at e))
        | inr (inl p) ↦ p
        | inr (inr n) ↦ absurd n
      ]))
