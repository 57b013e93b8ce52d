-- ===== src/Execution/Engine/Submit.antt =====
-- The loop that submits the planned orders.
use market_trader.Prelude.{
  ℕ, ◌+◌, true, false, some, List, [], ◌∷◌, ◌++◌, Result, ok, err, if◌then◌else◌,
}
use market_trader.Prelude.Eq.{string_eq}
use market_trader.Float.{Float}
use market_trader.Config.{is_live}
use market_trader.Core.Schema.{number, integer, text}
use market_trader.Execution.Broker.{Broker, BrokerError, Order, side_text, status_text}
use market_trader.Execution.Guardrails.{OrderSanityError, message, sanity_check_order, allow}
use market_trader.Execution.Engine.State.{Env, Engine, audit, portfolio_entity}
use market_trader.Execution.Engine.Plan.{Planned}

-- `orders`, `skipped`, and the engine.
pub record Progress (F B : Type 0) : Type 0 where
  pub orders : List (Order F)
  pub skipped : ℕ
  pub engine : Engine F B

module _ {F : Type 0} ⦃f : Float F⦄ where
  abbrev pub sane : Planned F → Result (OrderSanityError F) (Unit {0})
  sane p = sanity_check_order p.0 (some p.1) (f.lit 10_000_000 0) (f.lit 2 1)

module _ {F B : Type 0} ⦃f : Float F⦄ (broker : Broker F B) (env : Env) where
  -- A malformed order is skipped.
  unfoldable pub skip_insane : Planned F → OrderSanityError F → Progress F B → Progress F B
  skip_insane p x s = record s {
    skipped = s.skipped + 1;
    engine = audit env p.0.symbol "order_skipped" (("reason", text (message x)) ∷ []) s.engine;
  }

  -- The cap is reached.
  unfoldable pub stop_capped : Progress F B → Progress F B
  stop_capped s = record s {
    engine =
        audit env portfolio_entity "order_rate_capped"
          (("cap", integer s.engine.rate_limiter.max_orders) ∷ []) s.engine;
  }

  -- After `self.broker.submit_order(order)`: a rejection is skipped, a reply is kept.
  unfoldable pub after_submit :
      Planned F → Result BrokerError (Order F) × B → Progress F B → Progress F B
  after_submit p (err x, b) s = record s {
    skipped = s.skipped + 1;
    engine =
        audit env p.0.symbol "order_rejected"
          (("side", text (side_text p.0.side)) ∷ ("qty", number p.0.qty) ∷ ("reason", text x) ∷ [])
          (record s.engine { broker = b });
  }
  after_submit p (ok filled, b) s = record s {
    orders = s.orders ++ (filled ∷ []);
    engine =
        audit env p.0.symbol "order"
          (("client_order_id", text p.0.client_order_id)
            ∷ ("side", text (side_text p.0.side))
            ∷ ("qty", number p.0.qty)
            ∷ ("status", text (status_text filled.status))
            ∷ ("mode", text (if is_live s.engine.settings.execution_mode then "live" else "paper"))
            ∷ [])
          (record s.engine { broker = b });
  }

  abbrev pub submit : Planned F → Progress F B → Progress F B
  submit p s =
      after_submit p (broker.submit_order p.0 s.engine.broker)
        (record s { engine = record s.engine { rate_limiter = (allow s.engine.rate_limiter).1 } })

  unfoldable pub submit_all : List (Planned F) → Progress F B → Progress F B
  submit_all [] s = s
  submit_all (p ∷ rest) s = elim (sane p) [
    | err x ↦ submit_all rest (skip_insane p x s)
    | ok t ↦ elim ((allow s.engine.rate_limiter).0) [
      | false ↦ stop_capped s
      | true ↦ submit_all rest (submit p s)
    ]
  ]
