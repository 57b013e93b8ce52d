-- ===== src/Storage/Bitemporal/Upsert.antt =====
-- Idempotent ingestion into the in-memory store.
use market_trader.Prelude.{◌≡◌, refl, List, [], ◌∷◌}
use market_trader.Prelude.Dict.{insert_all, insert_all_idem, insert_all-IsNodup, IsNodup}
use market_trader.Prelude.Eq.{nat_eq}
use market_trader.Core.Schema.{Observation, Uuid}
use market_trader.Storage.Bitemporal.{Store, add, add_many, upsert_many}

module _ {F : Type 0} where
  abbrev by_id : List (Observation F) → List (Uuid × Observation F)
  by_id [] = []
  by_id (o ∷ os) = (o.observation_id, o) ∷ by_id os

  add_many-eq-insert_all :
      (os : List (Observation F)) (s : Store F) → add_many os s ≡ insert_all (by_id os) s
  unfolding add_many
  add_many-eq-insert_all [] s = refl
  add_many-eq-insert_all (o ∷ os) s = add_many-eq-insert_all os (add o s)

  pub upsert_many-eq-insert_all :
      (os : List (Observation F)) (s : Store F) → upsert_many os s ≡ insert_all (by_id os) s
  unfolding upsert_many
  upsert_many-eq-insert_all os s = add_many-eq-insert_all os s

  -- Writing a batch a second time changes nothing at all, also when it holds an id twice.
  pub upsert_many_idem :
      (os : List (Observation F)) (s : Store F)
      → IsNodup s
      → (upsert_many os (upsert_many os s) ≡ upsert_many os s) × IsNodup (upsert_many os s)
  upsert_many_idem os s n =
      simp upsert_many-eq-insert_all
        (insert_all_idem (by_id os) s n, insert_all-IsNodup (by_id os) s n)
