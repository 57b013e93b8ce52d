-- ===== src/Execution/Engine/Sent.antt =====
-- What a rebalance sends to the broker.
mod Wanted
mod Counted
pub use Wanted.{IsWanted}
pub use Counted.{Sent, unsent, sent_one}
use Wanted.{plan_all-IsWanted}
use Counted.{IsSent, submit_all-IsSent}
use mathlib.Core.Path.{subst}
use market_trader.Prelude.{
  sym, ℕ, ◌+◌, ◌≤◌, String, ◌≡◌, refl, List, [], ◌∷◌, arith, All, Mem, ok, err, Result, length, inl,
  inr, ◌⊎◌, result_cases,
}
use market_trader.Prelude.Sort.{sort_by-All}
use market_trader.Prelude.Dict.{Dict}
use market_trader.Float.{Float, fmin}
use market_trader.Portfolio.Risk.{Weights}
use market_trader.Execution.Broker.{Broker, Order, Account}
use market_trader.Execution.Engine.State.{Env, Engine, audit}
use market_trader.Execution.Engine.Gates.{check_targets, live_and_kill_gate, observe_equity}
use market_trader.Execution.Engine.Plan.{
  Planned, sells_le, sells_first, plan_all, held, with_pending,
}
use market_trader.Execution.Engine.Submit.{Progress, sane, submit_all}
use market_trader.Execution.Engine.Rebalance.{Outcome, summarise, trade, after_observe, rebalance}
use market_trader.Execution.Engine.Refused.{observe_equity-SameTrading}

module _ {F B : Type 0} ⦃f : Float F⦄ (broker : Broker F B) (env : Env) where
  start : Engine F B → Progress F B
  start e = record { orders = []; skipped = 0; engine = e }

  start-IsSent :
      (P : Planned F → Type 0) (e : Engine F B)
      → IsSent broker env P e.broker e.rate_limiter (start e)
  unfolding start
  start-IsSent P e = record {
    submissions = 0;
    sent = unsent;
    counted = omega arith;
    placed = omega arith;
    capped = inl refl;
    same_cap = refl;
  }

  -- What a rebalance from `e` to `e'` that returned `orders` has sent.
  pub record Sending (tw : Weights F) (prices : Dict String F) (e : Engine F B)
      (orders : List (Order F)) (e' : Engine F B) : Type 0 where
    pub submissions : ℕ
    pub sent : Sent broker env (IsWanted env prices tw) e.broker submissions e'.broker
    pub counted : e'.rate_limiter.count ≡ e.rate_limiter.count + submissions
    pub placed : length orders ≤ submissions
    pub capped :
        (submissions ≡ 0) ⊎ (e.rate_limiter.count + submissions ≤ e.rate_limiter.max_orders)

  summarise-same :
      (s : Progress F B) {orders : List (Order F)} {e' : Engine F B}
      → summarise broker env s ≡ (ok orders, e')
      → (orders ≡ s.orders)
        × (e'.broker ≡ s.engine.broker)
        × (e'.rate_limiter ≡ s.engine.rate_limiter)
  unfolding audit
  summarise-same s h = ground arith

  Sending-of-IsSent :
      (tw : Weights F) (prices : Dict String F) (e : Engine F B) (s : Progress F B)
      {orders : List (Order F)} {e' : Engine F B}
      → IsSent broker env (IsWanted env prices tw) e.broker e.rate_limiter s
      → summarise broker env s ≡ (ok orders, e')
      → Sending tw prices e orders e'
  Sending-of-IsSent tw prices e s {orders} {e'} inv h =
      let (eo, eb, er) = summarise-same s {orders = orders} {e' = e'} h in
      record {
        submissions = inv.submissions;
        sent =
            subst (Sent broker env (IsWanted env prices tw) e.broker inv.submissions) (sym eb)
              inv.sent;
        counted = rw er inv.counted;
        placed = rw eo inv.placed;
        capped = inv.capped;
      }

  trade-Sending :
      (tw : Weights F) (prices : Dict String F) (account : Account F) (e : Engine F B)
      {orders : List (Order F)} {e' : Engine F B}
      → trade broker env tw prices account e ≡ (ok orders, e')
      → Sending tw prices e orders e'
  unfolding trade start sells_first
  trade-Sending tw prices account e {orders} {e'} h =
      elim (result_cases (check_targets tw tw e.limits)) [
        | inl (x, g) ↦ absurd (ground arith)
        | inr (t, g) ↦ elim (result_cases (broker.get_positions e.broker)) [
          | inl (x, g1) ↦ absurd (ground arith)
          | inr (positions, g1) ↦ elim (result_cases (broker.get_open_orders e.broker)) [
            | inl (x, g2) ↦ absurd (ground arith)
            | inr (pending, g2) ↦
                let deployable = fmin account.equity e.settings.capital_ceiling in
                let effective = with_pending pending (held positions []) in
                elim (result_cases (plan_all env e.settings deployable prices effective tw)) [
                  | inl (x, g3) ↦ absurd (ground arith)
                  | inr (planned, g3) ↦
                      let wanted =
                        plan_all-IsWanted env prices tw e.settings deployable effective tw planned
                          (λ kv m. m) g3 in
                      Sending-of-IsSent tw prices e
                        (submit_all broker env (sells_first planned) (start e))
                        (submit_all-IsSent broker env (IsWanted env prices tw) e.broker
                          e.rate_limiter (sells_first planned) (start e)
                          (sort_by-All sells_le (IsWanted env prices tw) planned wanted)
                          (start-IsSent (IsWanted env prices tw) e))
                        (ground arith)
                ]
          ]
        ]
      ]

  after_observe-Sending :
      (tw : Weights F) (prices : Dict String F) (account : Account F) (e : Engine F B)
      {orders : List (Order F)} {e' : Engine F B}
      → after_observe broker env tw prices account e ≡ (ok orders, e')
      → Sending tw prices e orders e'
  unfolding after_observe
  after_observe-Sending tw prices account e {orders} {e'} h =
      trade-Sending tw prices account e {orders = orders} {e' = e'} (ground arith)

  Sending-from :
      (tw : Weights F) (prices : Dict String F) (d e : Engine F B) {orders : List (Order F)}
      {e' : Engine F B}
      → Sending tw prices d orders e'
      → d.broker ≡ e.broker
      → d.rate_limiter ≡ e.rate_limiter
      → Sending tw prices e orders e'
  Sending-from tw prices d e {orders} {e'} h eb er = record {
    submissions = h.submissions;
    sent =
        subst (λ b. Sent broker env (IsWanted env prices tw) b h.submissions e'.broker) eb h.sent;
    counted = rw (← er) h.counted;
    placed = h.placed;
    capped = rw (← er) h.capped;
  }

  -- A rebalance that returns has moved the broker by submissions only, each of an order that is for a
  -- target at its price, worth one unit of currency or more, and sane; each was counted by the rate
  -- limiter, which was never passed; and it returns no more orders than it submitted.
  pub rebalance-Sending :
      (tw : Weights F) (prices : Dict String F) (e : Engine F B) {orders : List (Order F)}
      {e' : Engine F B}
      → rebalance broker env tw prices e ≡ (ok orders, e')
      → Sending tw prices e orders e'
  unfolding rebalance
  rebalance-Sending tw prices e {orders} {e'} h = elim (result_cases (live_and_kill_gate e)) [
    | inl (y, g) ↦ absurd (ground arith)
    | inr g ↦ elim (result_cases (broker.get_account e.broker)) [
      | inl (y, a) ↦ absurd (ground arith)
      | inr (account, a) ↦
          Sending-from tw prices (observe_equity env account e) e
            (after_observe-Sending tw prices account (observe_equity env account e)
              {orders = orders} {e' = e'} (ground arith))
            (observe_equity-SameTrading env account e).0.broker
            (observe_equity-SameTrading env account e).0.rate_limiter
    ]
  ]
