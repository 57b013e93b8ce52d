-- ===== src/Alerts.antt =====
-- src/market_trader/alerts.py: alerts from the detected events. `text_of` is how a format string
-- writes a payload's value.
use Prim.Native.String.{◌++◌ as append_text}
use market_trader.Prelude.{ℕ, String, List, [], ◌∷◌}
use market_trader.Float.{Float}
use market_trader.Core.Time.{Instant}
use market_trader.Storage.Bitemporal.{Store}
use market_trader.Memory.Taxonomy.{
  insider_cluster_buy, leadership_congress_trade, Payload, Event, detect_events,
}

pub record Alert : Type 0 where
  pub level : String
  pub kind : String
  pub entity_id : String
  pub message : String
  pub at : Instant

module _ {F : Type 0} (text_of : Payload F → String) where
  unfoldable pub alert_of : Instant → Event F → List Alert
  alert_of at e = elim e.event_type [
    | insider_cluster_buy ↦
        record {
          level = "high";
          kind = "insider_cluster_buy";
          entity_id = e.entity_id;
          message = append_text (text_of e.payload) (append_text " insiders bought " e.entity_id);
          at = at;
        }
        ∷ []
    | leadership_congress_trade ↦
        record {
          level = "medium";
          kind = "leadership_congress_trade";
          entity_id = e.entity_id;
          message =
              append_text "leadership "
                (append_text (text_of e.payload) (append_text " in " e.entity_id));
          at = at;
        }
        ∷ []
    | _ ↦ []
  ]

  unfoldable pub alerts_of : Instant → List (Event F) → List Alert
  alerts_of at [] = []
  alerts_of at (e ∷ es) = elim (alert_of at e) [
    | [] ↦ alerts_of at es
    | (a ∷ _) ↦ a ∷ alerts_of at es
  ]

module _ {F : Type 0} ⦃f : Float F⦄ (text_of : Payload F → String) where
  unfoldable pub generate_alerts : Instant → ℕ → ℕ → Store F → List Alert
  generate_alerts at cluster_threshold cluster_window_days s =
      alerts_of text_of at (detect_events at cluster_threshold cluster_window_days s)
