-- ===== src/Execution/Engine/Sent/Wanted.antt =====
-- What the plan asks of an order.
use Prim.Native.String.{◌++◌ as append_text}
use market_trader.Prelude.{
  String, ◌≡◌, refl, false, Option, none, some, List, [], ◌∷◌, arith, All, Mem, ok, ap, ◌∙◌, inl,
  inr, Option-cases, result_cases,
}
use market_trader.Prelude.Eq.{string_eq}
use market_trader.Prelude.Dict.{Dict, lookup, get_or}
use market_trader.Float.{Float}
use market_trader.Config.{Settings}
use market_trader.Portfolio.Risk.{Weights}
use market_trader.Execution.Broker.{market}
use market_trader.Execution.Engine.State.{Env}
use market_trader.Execution.Engine.Plan.{
  Planned, no_price, order_for, plan_target, plan_all, keep, whole_shares,
}

module _ {F : Type 0} ⦃f : Float F⦄ (env : Env) (prices : Dict String F) (tw : Weights F) where
  -- A market order for a target of the portfolio at its price, worth one unit of currency or more, and
  -- named by the time and the symbol.
  pub record IsWanted (p : Planned F) : Type 0 where
    pub weight : F
    pub targeted : Mem (p.0.symbol, weight) tw
    pub priced : lookup p.0.symbol prices ≡ some p.1
    pub tradable : no_price (some p.1) ≡ false
    pub not_dust : f.lt (f.mul p.0.qty p.1) (f.lit 1 0) ≡ false
    pub is_market : p.0.order_type ≡ market
    pub named :
        p.0.client_order_id ≡ append_text (env.strftime env.as_of) (append_text "-" p.0.symbol)

  abbrev Fits : String → F → Planned F → Type 0
  Fits symbol price p =
      (p.0.symbol ≡ symbol)
      × (p.1 ≡ price)
      × (f.lt (f.mul p.0.qty price) (f.lit 1 0) ≡ false)
      × (p.0.order_type ≡ market)
      × (p.0.client_order_id ≡ append_text (env.strftime env.as_of) (append_text "-" symbol))

  order_for-Fits :
      (settings : Settings F) (symbol : String) (price delta : F) (p : Planned F)
      → order_for env settings symbol price delta ≡ ok (some p)
      → Fits symbol price p
  unfolding order_for
  order_for-Fits settings symbol price delta p h =
      elim (result_cases (whole_shares settings.fractional_shares (f.abs delta))) [
        | inl (x, w) ↦ absurd (ground arith)
        | inr (qty, w) ↦ ground arith
      ]

  Fits-IsWanted :
      (symbol : String) (weight price : F) (p : Planned F)
      → Mem (symbol, weight) tw
      → lookup symbol prices ≡ some price
      → no_price (some price) ≡ false
      → Fits symbol price p
      → IsWanted p
  Fits-IsWanted symbol weight price p m l t (es, ep, d, k, n) = record {
    weight = weight;
    targeted = rw es m;
    priced = rw (es, ep) l;
    tradable = rw ep t;
    not_dust = rw ep d;
    is_market = k;
    named = rw es n;
  }

  plan_priced :
      (settings : Settings F) (deployable : F) (positions : Dict String F) (symbol : String)
      (weight price : F) (p : Planned F)
      → lookup symbol prices ≡ some price
      → plan_target env settings deployable prices positions symbol weight ≡ ok (some p)
      → (delta : F) × (no_price (some price) ≡ false)
        × (order_for env settings symbol price delta ≡ ok (some p))
  unfolding plan_target
  plan_priced settings deployable positions symbol weight price p e h = (
    f.sub (f.div (f.mul weight deployable) price) (get_or symbol (f.lit 0 0) positions),
    ground arith,
    ground arith,
  )

  plan_target-IsWanted :
      (settings : Settings F) (deployable : F) (positions : Dict String F) (symbol : String)
      (weight : F) (p : Planned F)
      → Mem (symbol, weight) tw
      → plan_target env settings deployable prices positions symbol weight ≡ ok (some p)
      → IsWanted p
  unfolding plan_target
  plan_target-IsWanted settings deployable positions symbol weight p m h =
      elim (Option-cases (lookup symbol prices)) [
        | inl e ↦ absurd (ground arith)
        | inr (price, e) ↦
            let priced = plan_priced settings deployable positions symbol weight price p e h in
            Fits-IsWanted symbol weight price p m e priced.1
              (order_for-Fits settings symbol price _ p priced.2)
      ]

  keep-All :
      (o : Option (Planned F)) (ps : List (Planned F))
      → ((p : Planned F) → o ≡ some p → IsWanted p)
      → All IsWanted ps
      → All IsWanted (keep o ps)
  keep-All none ps h a = a
  keep-All (some p) ps h a = (h p refl, a)

  -- Every order of the plan is wanted.
  pub plan_all-IsWanted :
      (settings : Settings F) (deployable : F) (positions : Dict String F) (ws : Weights F)
      (ps : List (Planned F))
      → ((kv : String × F) → Mem kv ws → Mem kv tw)
      → plan_all env settings deployable prices positions ws ≡ ok ps
      → All IsWanted ps
  unfolding plan_all
  plan_all-IsWanted settings deployable positions [] ps inside h = let e : ps ≡ [] = cc in rw e tt
  plan_all-IsWanted settings deployable positions ((k, w) ∷ ws) ps inside h =
      elim (result_cases (plan_target env settings deployable prices positions k w)) [
        | inl (x, g) ↦ absurd (ground arith)
        | inr (here, g) ↦
            elim (result_cases (plan_all env settings deployable prices positions ws)) [
              | inl (x, r) ↦ absurd (ground arith)
              | inr (there, r) ↦
                  let e : ps ≡ keep here there = ground arith in
                  rw e (
                    keep-All here there
                      (λ p q.
                        plan_target-IsWanted settings deployable positions k w p
                          (inside (k, w) (inl refl)) (g ∙ ap ok q))
                      (plan_all-IsWanted settings deployable positions ws there
                        (λ kv m. inside kv (inr m)) r))
            ]
      ]
