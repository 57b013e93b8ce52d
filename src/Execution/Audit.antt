-- ===== src/Execution/Audit.antt =====
-- src/market_trader/execution/audit.py: the execution audit log.
use Prim.Native.String.{◌++◌ as append_text}
use market_trader.Prelude.{String, none, some, List, [], ◌∷◌}
use market_trader.Prelude.Eq.{string_eq}
use market_trader.Prelude.Dict.{Dict, lookup, insert_all}
use market_trader.Core.Time.{Instant}
use market_trader.Core.Schema.{Observation, Value, text}
use market_trader.Core.Identity.{Identity, with_deterministic_id}
use market_trader.Storage.Bitemporal.{Store, by_dataset, upsert_many, as_of}

abbrev pub execution_dataset : String
execution_dataset = "execution.audit"

module _ {F : Type 0} where
  -- `detail.get('client_order_id', '')`, which is text wherever the program sets it.
  abbrev pub order_id_of : Dict String (Value F) → String
  order_id_of detail = elim (lookup "client_order_id" detail) [
    | some v ↦ elim v [ text s ↦ s | _ ↦ "" ]
    | none ↦ ""
  ]

  -- The clock is read at `now` for `ingested_at`.
  unfoldable pub audit_observation :
      Identity → Instant → Instant → String → String → Dict String (Value F) → Observation F
  audit_observation lib now at symbol event detail = with_deterministic_id lib (record {
    source = "execution";
    dataset = execution_dataset;
    entity_type = "equity";
    entity_id = symbol;
    ref = some (append_text event (append_text ":" (order_id_of detail)));
    event_time = at;
    knowledge_time = at;
    value = insert_all detail (("event", text event) ∷ []);
    metadata = [];
    revision = 0;
    observation_id = 0;
    ingested_at = now;
  })

  unfoldable pub log_execution_event :
      Identity → Instant → Instant → String → String → Dict String (Value F) → Store F → Store F
  unfolding audit_observation
  log_execution_event lib now at symbol event detail s =
      upsert_many (audit_observation lib now at symbol event detail ∷ []) s

  pub load_execution_audit : Instant → Store F → List (Observation F)
  load_execution_audit at s = as_of at (by_dataset execution_dataset) s
