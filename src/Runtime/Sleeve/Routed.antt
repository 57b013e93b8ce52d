-- ===== src/Runtime/Sleeve/Routed.antt =====
-- What a sleeve's engine sends.
use mathlib.Core.Path.{subst}
use market_trader.Prelude.{
  ℕ, String, none, [], ◌∷◌, arith, All, Mem, result_cases, inl, inr, all_of_mem, sym,
}
use market_trader.Prelude.Dict.{Dict, keys}
use market_trader.Float.{Float}
use market_trader.Config.{Settings}
use market_trader.Portfolio.Risk.{Weights, RiskLimits}
use market_trader.Execution.Broker.{Broker}
use market_trader.Execution.Engine.{Env, Engine}
use market_trader.Execution.Engine.Plan.{Planned}
use market_trader.Execution.Engine.Restore.{new_engine}
use market_trader.Execution.Engine.Rebalance.{rebalance}
use market_trader.Execution.Engine.Refused.{rebalance_refused}
use market_trader.Execution.Engine.Sent.{Sent, unsent, sent_one, rebalance-Sending}
use market_trader.Runtime.Sleeve.{execute_target}

module _ {F B : Type 0} ⦃f : Float F⦄ (broker : Broker F B) (env : Env) where
  -- The broker came from `b` to `b'` by submissions of orders for symbols that have `P`, and by nothing
  -- else.
  abbrev pub Routed : (String → Type 0) → B → B → Type 0
  Routed P b b' = (n : ℕ) × Sent broker env (λ p. P p.0.symbol) b n b'

  Sent-weaken :
      {P Q : Planned F → Type 0} {b b' : B} {n : ℕ}
      → ((p : Planned F) → P p → Q p)
      → Sent broker env P b n b'
      → Sent broker env Q b n b'
  Sent-weaken g unsent = unsent
  Sent-weaken g (sent_one p w s rest e) = sent_one p (g p w) s (Sent-weaken g rest) e

  pub Routed-weaken :
      {P Q : String → Type 0} {b b' : B}
      → ((n : String) → P n → Q n)
      → Routed P b b'
      → Routed Q b b'
  Routed-weaken g (n, sent) = (n, Sent-weaken (λ p h. g p.0.symbol h) sent)

  mem_key : (s : String) (w : F) (tw : Weights F) → Mem (s, w) tw → Mem s (keys tw)
  mem_key s w [] m = absurd m
  mem_key s w ((k, v) ∷ tw) m = ground (arith, mem_key s w tw)

  pub rebalance-Routed :
      (P : String → Type 0) (tw : Weights F) (prices : Dict String F) (e : Engine F B)
      → All P (keys tw)
      → Routed P e.broker (rebalance broker env tw prices e).1.broker
  rebalance-Routed P tw prices e h =
      let r = rebalance broker env tw prices e in
      elim (result_cases r.0) [
        | inl (x, g) ↦
            let same =
              (rebalance_refused broker env tw prices e {x = x} {e' = r.1} (ground (arith, g))).0 in
            (0, subst (Sent broker env (λ p. P p.0.symbol) e.broker 0) (sym same) unsent)
        | inr (orders, g) ↦
            let sending =
              rebalance-Sending broker env tw prices e {orders = orders} {e' = r.1}
                (ground (arith, g)) in
            (
              sending.submissions,
              Sent-weaken
                  (λ p w.
                    all_of_mem P p.0.symbol (keys tw) h (mem_key p.0.symbol w.weight tw w.targeted))
                  sending.sent,
            )
      ]

  pub execute_target-Routed :
      (P : String → Type 0) (settings : Settings F) (limits : RiskLimits F) (tw : Weights F)
      (prices : Dict String F) (b : B)
      → All P (keys tw)
      → Routed P b (execute_target broker env settings limits tw prices b).1
  unfolding execute_target new_engine
  execute_target-Routed P settings limits [] prices b h = (0, unsent)
  execute_target-Routed P settings limits (w ∷ ws) prices b h =
      rebalance-Routed P (w ∷ ws) prices (new_engine env.now b settings limits none) h
