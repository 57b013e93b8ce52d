-- ===== src/Storage/Bitemporal/Tests.antt =====
-- The store at concrete inputs: a price, its correction that becomes known later, and a filing.
use market_trader.Prelude.{ℕ, ◌≤◌, ◌<◌, ◌≡◌, refl, true, none, [], ◌∷◌, arith, All, Mem, inl, ◌⊎◌}
use market_trader.Prelude.Eq.{nat_eq}
use market_trader.Prelude.Sort.{sort_by}
use market_trader.Prelude.Dict.{values, IsNodup}
use market_trader.Core.Schema.{Observation, logical_key}
use market_trader.Storage.Bitemporal.{
  Store, Query, by_dataset, as_of, visible, sort_observations, collapse_latest_revisions,
  collapse_from, keep_latest, add, upsert_many,
}
use market_trader.Storage.Bitemporal.PointInTime.{
  Matches, as_of_no_lookahead, as_of_complete, as_of_unique, as_of-add_future,
}
use market_trader.Storage.Bitemporal.Upsert.{upsert_many_idem}

abbrev price : ℕ → ℕ → ℕ → Observation ℕ
price id known revision = record {
  source = "price";
  dataset = "price.ohlcv";
  entity_type = "equity";
  entity_id = "AAPL";
  ref = none;
  event_time = 10;
  knowledge_time = known;
  value = [];
  metadata = [];
  revision = revision;
  observation_id = id;
  ingested_at = 50;
}

abbrev filing : Observation ℕ
filing = record (price 3 12 0) { dataset = "filing.form4" }

abbrev store : Store ℕ
store = (1, price 1 11 0) ∷ (2, price 2 20 1) ∷ (3, filing) ∷ []

abbrev prices : Query
prices = by_dataset "price.ohlcv"

before_correction : as_of 15 prices store ≡ price 1 11 0 ∷ []
unfolding as_of visible sort_observations sort_by collapse_latest_revisions collapse_from
    keep_latest
before_correction = refl

after_correction : as_of 20 prices store ≡ price 2 20 1 ∷ []
unfolding as_of visible sort_observations sort_by collapse_latest_revisions collapse_from
    keep_latest
after_correction = refl

as_of_no_lookahead_example :
    All
      (λ o. Mem o (values store) × (o.knowledge_time ≤ 15) × Matches prices o)
      (as_of 15 prices store)
as_of_no_lookahead_example = as_of_no_lookahead 15 prices store

abbrev Found : Type 0
Found =
    (r : Observation ℕ) × Mem r (as_of 20 prices store)
    × (logical_key r ≡ logical_key (price 1 11 0))
    × ((11 < r.knowledge_time) ⊎ ((11 ≡ r.knowledge_time) × (0 ≤ r.revision)))
    × ((true ≡ true) ⊎ (r ≡ price 1 11 0))

as_of_complete_example : Found
as_of_complete_example =
    as_of_complete 20 prices store (price 1 11 0) (inl refl) (omega arith)
      (record { source = tt; dataset = refl; entity_type = tt; entity_id = tt })

as_of_unique_example : price 2 20 1 ≡ price 2 20 1
unfolding as_of visible sort_observations sort_by collapse_latest_revisions collapse_from
    keep_latest
as_of_unique_example =
    as_of_unique 20 prices store (price 2 20 1) (price 2 20 1) refl (inl refl) (inl refl) refl

as_of-add_future_example : as_of 15 prices (add (price 4 30 2) store) ≡ as_of 15 prices store
as_of-add_future_example =
    as_of-add_future 15 prices store (price 4 30 2) (omega arith) (λ p h. absurd (cc))

upsert_many_idem_example :
    (upsert_many
        (filing ∷ price 5 30 2 ∷ filing ∷ [])
        (upsert_many (filing ∷ price 5 30 2 ∷ filing ∷ []) store)
      ≡ upsert_many (filing ∷ price 5 30 2 ∷ filing ∷ []) store)
    × IsNodup (upsert_many (filing ∷ price 5 30 2 ∷ filing ∷ []) store)
upsert_many_idem_example =
    upsert_many_idem (filing ∷ price 5 30 2 ∷ filing ∷ []) store (refl, (refl, (refl, tt)))
