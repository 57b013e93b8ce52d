-- ===== src/Runtime/Cycle/Cancelled.antt =====
-- What `cancel_stale` of the cycle does to the broker: the walk over the open orders that it lists.
use market_trader.Prelude.{
  String, ◌≡◌, refl, Bool, true, false, List, [], ◌∷◌, err, ok, inl, inr, Bool-cases, result_cases,
  filter,
}
use market_trader.Prelude.Eq.{string_eq}
use market_trader.Float.{Float}
use market_trader.Execution.Broker.{Broker, BrokerError, Order}
use market_trader.Runtime.Sleeve.{is_in}
use market_trader.Runtime.Cycle.Target.{Options, is_free}
use market_trader.Runtime.Cycle.Pass.{cancel_all, cancel_stale}

module _ {F B : Type 0} ⦃f : Float F⦄ (broker : Broker F B) where
  -- The broker came from one state to another by going through the orders: each is for a symbol that
  -- has `Q` and is left, or for one that has `P` and is cancelled; a call that raises ends it.
  pub data Cancelled (P Q : String → Type 0) : List (Order F) → B → B → Type 0 where
    all_done : {b : B} → Cancelled P Q [] b b
    kept :
        {os : List (Order F)} {b b' : B} (o : Order F)
        → Q o.symbol
        → Cancelled P Q os b b'
        → Cancelled P Q (o ∷ os) b b'
    cancelled :
        {os : List (Order F)} {b b' : B} (o : Order F)
        → P o.symbol
        → (broker.cancel_order o.client_order_id b).0 ≡ ok tt
        → Cancelled P Q os (broker.cancel_order o.client_order_id b).1 b'
        → Cancelled P Q (o ∷ os) b b'
    raised :
        {os : List (Order F)} {b : B} (o : Order F) (e : BrokerError)
        → P o.symbol
        → (broker.cancel_order o.client_order_id b).0 ≡ err e
        → Cancelled P Q (o ∷ os) b (broker.cancel_order o.client_order_id b).1

  -- The open orders that the broker lists are gone through, or the broker is left as it is: the cycle
  -- was not asked to cancel, or the broker could not list them.
  pub data Cleared (on : Bool) (P Q : String → Type 0) (b : B) : B → Type 0 where
    not_asked : on ≡ false → Cleared on P Q b b
    not_listed : (e : BrokerError) → broker.get_open_orders b ≡ err e → Cleared on P Q b b
    listed :
        {b' : B} (os : List (Order F))
        → broker.get_open_orders b ≡ ok os
        → Cancelled P Q os b b'
        → Cleared on P Q b b'

  Cancelled-weaken :
      {P P' Q : String → Type 0} {os : List (Order F)} {b b' : B}
      → ((n : String) → P n → P' n)
      → Cancelled P Q os b b'
      → Cancelled P' Q os b b'
  Cancelled-weaken g all_done = all_done
  Cancelled-weaken g (kept o h rest) = kept o h (Cancelled-weaken g rest)
  Cancelled-weaken g (cancelled o h e rest) = cancelled o (g o.symbol h) e (Cancelled-weaken g rest)
  Cancelled-weaken g (raised o x h e) = raised o x (g o.symbol h) e

  pub Cleared-weaken :
      {on : Bool} {P P' Q : String → Type 0} {b b' : B}
      → ((n : String) → P n → P' n)
      → Cleared on P Q b b'
      → Cleared on P' Q b b'
  Cleared-weaken g (not_asked h) = not_asked h
  Cleared-weaken g (not_listed e h) = not_listed e h
  Cleared-weaken g (listed os h c) = listed os h (Cancelled-weaken g c)

  cancel_all-Cancelled :
      (reserved : List String) (os : List (Order F)) (b : B)
      → Cancelled
          (λ n. is_in n reserved ≡ false)
          (λ n. is_in n reserved ≡ true)
          os
          b
          (cancel_all broker (filter (λ (o : Order F). is_free reserved o.symbol) os) b).1
  unfolding cancel_all
  cancel_all-Cancelled reserved [] b = all_done
  cancel_all-Cancelled reserved (o ∷ os) b = elim (Bool-cases (is_in o.symbol reserved)) [
    | inl t ↦ rw t (kept o t (cancel_all-Cancelled reserved os b))
    | inr t ↦ elim (result_cases (broker.cancel_order o.client_order_id b).0) [
      | inl (e, g) ↦ rw t (rw (g, cancel_all) (raised o e t g))
      | inr (u, g) ↦ rw t (
          rw (g, cancel_all)
            (cancelled o t g
              (cancel_all-Cancelled reserved os (broker.cancel_order o.client_order_id b).1)))
    ]
  ]

  pub cancel_stale-Cleared :
      (options : Options F) (b : B)
      → Cleared options.cancel_stale_orders
          (λ n. is_in n options.reserved_symbols ≡ false)
          (λ n. is_in n options.reserved_symbols ≡ true)
          b
          (cancel_stale broker options b).1
  unfolding cancel_stale
  cancel_stale-Cleared options b = elim (Bool-cases options.cancel_stale_orders) [
    | inr e ↦ rw e (not_asked refl)
    | inl e ↦ elim (result_cases (broker.get_open_orders b)) [
      | inl (x, g) ↦ rw e (rw (g, cancel_stale) (not_listed x g))
      | inr (os, g) ↦
          rw e (
            rw (g, cancel_stale) (listed os g (cancel_all-Cancelled options.reserved_symbols os b)))
    ]
  ]
