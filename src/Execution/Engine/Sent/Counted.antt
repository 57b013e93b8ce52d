-- ===== src/Execution/Engine/Sent/Counted.antt =====
-- The submission loop: each submission passed the sanity check and was counted.
use market_trader.Prelude.{
  ℕ, zero, suc, ◌+◌, ◌≤◌, ◌≡◌, refl, true, List, [], ◌∷◌, arith, All, ok, err, Result, length,
  length-append, inl, inr, ◌⊎◌, Bool-cases, sym, result_cases,
}
use mathlib.Core.Path.{subst}
use market_trader.Float.{Float}
use market_trader.Execution.Broker.{Broker, BrokerError, Order}
use market_trader.Execution.Guardrails.{OrderSanityError, OrderRateLimiter, allow}
use market_trader.Execution.Engine.State.{Env}
use market_trader.Execution.Engine.Plan.{Planned}
use market_trader.Execution.Engine.Submit.{
  Progress, sane, skip_insane, stop_capped, after_submit, submit_all,
}
use market_trader.Execution.Engine.Refused.{audit-SameGuards}

module _ {F B : Type 0} ⦃f : Float F⦄ (broker : Broker F B) (env : Env)
    (P : Planned F → Type 0) where
  -- From `b`, the broker has come to the last index by so many submissions of orders that are sane and
  -- have `P`, and by nothing else.
  pub data Sent (b : B) : ℕ → B → Type 0 where
    unsent : Sent b zero b
    sent_one :
        {n : ℕ} {c d : B} (p : Planned F)
        → P p
        → sane p ≡ ok tt
        → Sent b n c
        → d ≡ (broker.submit_order p.0 c).1
        → Sent b (suc n) d

  -- The loop's invariant, from a broker `b` and a limiter `r`.
  pub record IsSent (b : B) (r : OrderRateLimiter) (s : Progress F B) : Type 0 where
    pub submissions : ℕ
    pub sent : Sent b submissions s.engine.broker
    pub counted : s.engine.rate_limiter.count ≡ r.count + submissions
    pub placed : length s.orders ≤ submissions
    pub capped : (submissions ≡ 0) ⊎ (r.count + submissions ≤ r.max_orders)
    pub same_cap : s.engine.rate_limiter.max_orders ≡ r.max_orders

  IsSent-same :
      (b : B) (r : OrderRateLimiter) (s t : Progress F B)
      → IsSent b r s
      → t.engine.broker ≡ s.engine.broker
      → t.engine.rate_limiter ≡ s.engine.rate_limiter
      → t.orders ≡ s.orders
      → IsSent b r t
  IsSent-same b r s t h eb er eo = record {
    submissions = h.submissions;
    sent = subst (Sent b h.submissions) (sym eb) h.sent;
    counted = rw er h.counted;
    placed = rw eo h.placed;
    capped = h.capped;
    same_cap = rw er h.same_cap;
  }

  skip_insane-IsSent :
      (b : B) (r : OrderRateLimiter) (p : Planned F) (x : OrderSanityError F) (s : Progress F B)
      → IsSent b r s
      → IsSent b r (skip_insane broker env p x s)
  unfolding skip_insane
  skip_insane-IsSent b r p x s h =
      let a = audit-SameGuards env p.0.symbol "order_skipped" _ s.engine in
      IsSent-same b r s _ h a.trading.broker a.trading.rate_limiter refl

  stop_capped-IsSent :
      (b : B) (r : OrderRateLimiter) (s : Progress F B)
      → IsSent b r s
      → IsSent b r (stop_capped broker env s)
  unfolding stop_capped
  stop_capped-IsSent b r s h =
      let a = audit-SameGuards env _ "order_rate_capped" _ s.engine in
      IsSent-same b r s _ h a.trading.broker a.trading.rate_limiter refl

  submitted-IsSent :
      (b d : B) (r : OrderRateLimiter) (p : Planned F) (s t : Progress F B)
      → P p
      → sane p ≡ ok tt
      → d ≡ (broker.submit_order p.0 s.engine.broker).1
      → (allow s.engine.rate_limiter).0 ≡ true
      → IsSent b r s
      → t.engine.broker ≡ d
      → t.engine.rate_limiter ≡ (allow s.engine.rate_limiter).1
      → length t.orders ≤ length s.orders + 1
      → IsSent b r t
  unfolding allow
  submitted-IsSent b d r p s t wanted sound e room h eb er eo = record {
    submissions = suc h.submissions;
    sent = subst (Sent b (suc h.submissions)) (sym eb) (sent_one p wanted sound h.sent e);
    counted = ground (arith, h.counted);
    placed = omega (arith, h.placed);
    capped = inr (ground (arith, h.counted, h.same_cap));
    same_cap = ground (arith, h.same_cap);
  }

  -- After a submission of `p`, whatever the broker replied.
  after_submit-IsSent :
      (b : B) (r : OrderRateLimiter) (p : Planned F) (reply : Result BrokerError (Order F)) (d : B)
      (s : Progress F B)
      → P p
      → sane p ≡ ok tt
      → d ≡ (broker.submit_order p.0 s.engine.broker).1
      → (allow s.engine.rate_limiter).0 ≡ true
      → IsSent b r s
      → IsSent b r (
          after_submit broker env p
            (reply, d)
            (record s {
              engine = record s.engine { rate_limiter = (allow s.engine.rate_limiter).1 };
            }))
  unfolding after_submit allow
  after_submit-IsSent b r p (err x) d s wanted sound e room h =
      let a = audit-SameGuards env p.0.symbol "order_rejected" _ _ in
      submitted-IsSent b d r p s _ wanted sound e room h a.trading.broker a.trading.rate_limiter
        (omega arith)
  after_submit-IsSent b r p (ok filled) d s wanted sound e room h =
      let a = audit-SameGuards env p.0.symbol "order" _ _ in
      submitted-IsSent b d r p s _ wanted sound e room h a.trading.broker a.trading.rate_limiter
        (omega (arith, length-append s.orders (filled ∷ [])))

  pub submit_all-IsSent :
      (b : B) (r : OrderRateLimiter) (ps : List (Planned F)) (s : Progress F B)
      → All P ps
      → IsSent b r s
      → IsSent b r (submit_all broker env ps s)
  unfolding submit_all
  submit_all-IsSent b r [] s w h = h
  submit_all-IsSent b r (p ∷ ps) s w h = elim (result_cases (sane p)) [
    | inl (x, e) ↦
        rw (e, submit_all) (submit_all-IsSent b r ps _ w.1 (skip_insane-IsSent b r p x s h))
    | inr (t, e) ↦ elim (Bool-cases ((allow s.engine.rate_limiter).0)) [
      | inr full ↦ rw (e, full, submit_all) (stop_capped-IsSent b r s h)
      | inl room ↦
          rw (e, room, submit_all)
            (submit_all-IsSent b r ps _ w.1 (after_submit-IsSent b r p _ _ s w.0 e refl room h))
    ]
  ]
