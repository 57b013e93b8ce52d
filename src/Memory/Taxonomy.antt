-- ===== src/Memory/Taxonomy.antt =====
-- src/market_trader/memory/taxonomy.py: the events that can be read from the store at a time.
use market_trader.Prelude.{
  ℕ, ◌+◌, ◌*◌, String, Bool, false, not, ◌&&◌, Option, none, some, List, [], ◌∷◌, ◌++◌, filter,
  length, ltb, leb, nat_beq, if◌then◌else◌,
}
use market_trader.Prelude.Eq.{◌==◌, string_eq}
use market_trader.Prelude.Dict.{Dict, lookup, insert, get_or}
use market_trader.Float.{Float, truthy}
use market_trader.Core.Time.{Instant}
use market_trader.Core.Schema.{Observation, Value, null, boolean, integer, number, text, numbers}
use market_trader.Storage.Bitemporal.{Store, by_dataset, as_of}

pub data EventType : Type 0 where
  earnings_beat earnings_miss cpi_surprise fed_surprise guidance_change m_and_a : EventType
  regulatory_action geopolitical_shock insider_cluster_buy : EventType
  leadership_congress_trade news_sentiment_spike : EventType

-- What the payload of a detected event holds.
pub data Payload (F : Type 0) : Type 0 where
  n_buys : ℕ → Payload F
  transaction_type : Option (Value F) → Payload F

pub record Event (F : Type 0) : Type 0 where
  pub event_type : EventType
  pub entity_id : String
  pub event_time : Instant
  pub knowledge_time : Instant
  pub payload : Payload F

abbrev pub day : ℕ
day = 86_400_000_000

abbrev pub form4_dataset : String
form4_dataset = "filing.form4"

abbrev pub congress_dataset : String
congress_dataset = "disclosure.congress_trade"

module _ {F : Type 0} ⦃f : Float F⦄ where
  -- Python's truth of `d.get(key)`.
  abbrev pub is_true : Option (Value F) → Bool
  is_true none = false
  is_true (some null) = false
  is_true (some (boolean b)) = b
  is_true (some (integer n)) = not (nat_beq n 0)
  is_true (some (number x)) = truthy x
  is_true (some (text t)) = not (t == "")
  is_true (some (numbers d)) = ltb 0 (length d)

  -- `o.value.get("is_purchase") and o.knowledge_time > as_of - window`
  abbrev pub is_recent_purchase : Instant → ℕ → Observation F → Bool
  is_recent_purchase at window o =
      is_true (lookup "is_purchase" o.value) && ltb at (o.knowledge_time + window)

module _ {F : Type 0} where
  -- The rows of each entity, entities in the order in which they come up.
  unfoldable pub group_by_entity :
      List (Observation F) → Dict String (List (Observation F)) → Dict String (List (Observation F))
  group_by_entity [] d = d
  group_by_entity (o ∷ os) d =
      group_by_entity os (insert o.entity_id (get_or o.entity_id [] d ++ o ∷ []) d)

  unfoldable pub latest_of : (Observation F → Instant) → Instant → List (Observation F) → Instant
  latest_of time best [] = best
  latest_of time best (o ∷ os) = latest_of time (if ltb best (time o) then time o else best) os

  unfoldable pub cluster_events : ℕ → Dict String (List (Observation F)) → List (Event F)
  cluster_events threshold [] = []
  cluster_events threshold ((entity_id, obs) ∷ rest) =
      let later = cluster_events threshold rest in
      if leb threshold (length obs)
      then record {
        event_type = insider_cluster_buy;
        entity_id = entity_id;
        event_time = latest_of (λ o. o.event_time) 0 obs;
        knowledge_time = latest_of (λ o. o.knowledge_time) 0 obs;
        payload = n_buys (length obs);
      }
        ∷ later
      else later

module _ {F : Type 0} ⦃f : Float F⦄ where
  unfoldable pub congress_events : List (Observation F) → List (Event F)
  congress_events [] = []
  congress_events (o ∷ os) =
      let later = congress_events os in
      if is_true (lookup "high_signal_role" o.metadata)
      then record {
        event_type = leadership_congress_trade;
        entity_id = o.entity_id;
        event_time = o.event_time;
        knowledge_time = o.knowledge_time;
        payload = transaction_type (lookup "transaction_type" o.value);
      }
        ∷ later
      else later

  unfoldable pub detect_events : Instant → ℕ → ℕ → Store F → List (Event F)
  detect_events at cluster_threshold cluster_window_days s =
      cluster_events cluster_threshold (
        group_by_entity
          (filter (is_recent_purchase at (cluster_window_days * day))
            (as_of at (by_dataset form4_dataset) s))
          [])
      ++ congress_events (as_of at (by_dataset congress_dataset) s)
