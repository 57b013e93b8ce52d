-- ===== src/Execution/PaperBroker/OrderBook.antt =====
-- The paper broker's order book: idempotent submission, states, cancellation.
use mathlib.Core.Option.{some-injective}
use market_trader.Prelude.{
  String, ◌≡◌, refl, true, false, none, some, [], ◌∷◌, arith, All, filter, Bool-cases, Option-cases,
  inl, inr, ◌⊎◌, ◌≢◌, ◌∙◌, sym,
}
use market_trader.Prelude.Eq.{◌==◌, string_eq, beq_refl, beq_iff}
use market_trader.Prelude.Dict.{
  Dict, lookup, insert, lookup-insert, All-insert, insert-IsNodup, IsNodup, values,
}
use market_trader.Float.{Float}
use market_trader.Execution.Broker.{Order, accepted, filled, rejected, cancelled}
use market_trader.Execution.PaperBroker.Submission.{
  Book, SameTerms, IsLeft, is_rejected, is_resting, is_filled, submit_order-IsSubmitted,
}
use market_trader.Execution.PaperBroker.{
  submit_order, cancel_order, get_open_orders, is_open, is_cancellable,
}

module _ {F : Type 0} ⦃f : Float F⦄ where
  -- How an order can stand in the book, after submissions and cancellations: filled for its whole
  -- quantity at a price, resting, rejected, or cancelled.
  abbrev pub IsSettled : Order F → Type 0
  IsSettled o =
      ((o.status ≡ filled) × (o.filled_qty ≡ o.qty) × ((p : F) × (o.filled_avg_price ≡ some p)))
      ⊎ (o.status ≡ accepted)
      ⊎ (o.status ≡ rejected)
      ⊎ (o.status ≡ cancelled)

  -- Each order stands under its own id, as the broker leaves it, and no id stands twice.
  pub record IsBook (b : Book F) : Type 0 where
    pub settled :
        All (λ (x : String × Order F). (x.1.client_order_id ≡ x.0) × IsSettled x.1) b.orders
    pub nodup : IsNodup b.orders

  lookup-insert_self :
      (k : String) (v : Order F) (d : Dict String (Order F)) → lookup k (insert k v d) ≡ some v
  lookup-insert_self k v d = rw (lookup-insert k k v d) (rw (beq_refl k))

  IsLeft-IsSettled :
      (o : Order F) (b : Book F) (r : Order F) (b' : Book F)
      → SameTerms o r
      → IsLeft o b r b'
      → IsSettled r
  IsLeft-IsSettled o b r b' same (is_rejected u e q c p) = inr (inr (inl e))
  IsLeft-IsSettled o b r b' same (is_resting price x a e q c p) = inr (inl e)
  IsLeft-IsSettled o b r b' same (is_filled price q d x a s e (n, v) c p) =
      inl (e, n ∙ sym same.same_qty, (q, v))

  submit_order-known :
      (again : Order F) (c : Book F) (r : Order F)
      → lookup again.client_order_id c.orders ≡ some r
      → submit_order again c ≡ (r, c)
  unfolding submit_order
  submit_order-known again c r e = rw (e, submit_order)

  -- Submitting any order under an id that was submitted before returns what the first submission
  -- returned and changes nothing: no order fills twice.
  pub submit_order_idem :
      (o again : Order F) (b : Book F)
      → again.client_order_id ≡ o.client_order_id
      → submit_order again (submit_order o b).1 ≡ submit_order o b
  submit_order_idem o again b h =
      let known = (submit_order-IsSubmitted o b).stored in
      submit_order-known again (submit_order o b).1 (submit_order o b).0 (rw h known)

  -- A submission keeps the order book in order.
  pub submit_order-IsBook : (o : Order F) (b : Book F) → IsBook b → IsBook (submit_order o b).1
  submit_order-IsBook o b h = elim ((submit_order-IsSubmitted o b).book) [
    | inl (e, same) ↦ rw same h
    | inr (e, orders, same, left) ↦ record {
      settled = rw orders (
          All-insert _ o.client_order_id _ b.orders
            (λ j q. (
              same.same_id ∙ sym ((beq_iff j o.client_order_id).0 q),
              IsLeft-IsSettled o b _ _ same left,
            ))
            (same.same_id, IsLeft-IsSettled o b _ _ same left) h.settled);
      nodup = rw orders (insert-IsNodup o.client_order_id _ b.orders h.nodup);
    }
  ]

  abbrev Entries : Dict String (Order F) → Type 0
  Entries d = All (λ (x : String × Order F). (x.1.client_order_id ≡ x.0) × IsSettled x.1) d

  entry_of_lookup :
      (id : String) (o : Order F) (d : Dict String (Order F))
      → Entries d
      → lookup id d ≡ some o
      → (o.client_order_id ≡ id) × IsSettled o
  entry_of_lookup id o [] h e = absurd (cc)
  entry_of_lookup id o ((j, p) ∷ d) h e = elim (Bool-cases (j == id)) [
    | inl t ↦
        let same : p ≡ o = some-injective _ _ (rw t at e) in
        rw (← same) (h.0.0 ∙ (beq_iff j id).0 t, h.0.1)
    | inr t ↦ entry_of_lookup id o d h.1 (rw t at e)
  ]

  cancelled_entry :
      (id : String) (o : Order F)
      → (o.client_order_id ≡ id) × IsSettled o
      → (j : String) → (j == id) ≡ true
      → ((record o { status = cancelled }).client_order_id ≡ j)
        × IsSettled (record o { status = cancelled })
  cancelled_entry id o h j q = (h.0 ∙ sym ((beq_iff j id).0 q), inr (inr (inr refl)))

  cancel_order-IsBook : (id : String) (b : Book F) → IsBook b → IsBook (cancel_order id b)
  unfolding cancel_order
  cancel_order-IsBook id b h = elim (Option-cases (lookup id b.orders)) [
    | inl e ↦ rw (e, cancel_order) h
    | inr (o, e) ↦ elim (Bool-cases (is_cancellable o.status)) [
      | inr t ↦ rw (e, t, cancel_order) h
      | inl t ↦
          let entry = entry_of_lookup id o b.orders h.settled e in
          rw (e, t, cancel_order)
            (record {
              settled =
                  All-insert _ id _ b.orders (cancelled_entry id o entry)
                    (cancelled_entry id o entry id (beq_refl id)) h.settled;
              nodup = insert-IsNodup id _ b.orders h.nodup;
            })
    ]
  ]

  closed_unless_cancellable :
      (o : Order F) → IsSettled o → is_cancellable o.status ≡ false → is_open o.status ≡ false
  closed_unless_cancellable o h e = ground arith

  -- What a cancellation does: an order that is open has its status changed and nothing else; if the id
  -- is unknown or its order is no longer open, the broker stays as it is.
  pub data IsCancelled (id : String) (b : Book F) : Book F → Type 0 where
    unknown : lookup id b.orders ≡ none → IsCancelled id b b
    over :
        (o : Order F) → lookup id b.orders ≡ some o → is_open o.status ≡ false → IsCancelled id b b
    was_open :
        (o : Order F)
        → lookup id b.orders ≡ some o
        → is_open o.status ≡ true
        → IsCancelled id b
            (record b { orders = insert id (record o { status = cancelled }) b.orders })

  open_if_cancellable : (o : Order F) → is_cancellable o.status ≡ true → is_open o.status ≡ true
  open_if_cancellable o h = ground arith

  -- In a book that is in order, a cancellation changes the status of the order under its id if that order
  -- is open, and changes nothing if it is filled, rejected, cancelled or unknown; cash, positions and
  -- the other orders stay either way, and the book stays in order.
  pub cancel_order-IsCancelled :
      (id : String) (b : Book F)
      → IsBook b
      → IsCancelled id b (cancel_order id b) × IsBook (cancel_order id b)
  unfolding cancel_order
  cancel_order-IsCancelled id b h = (
    elim (Option-cases (lookup id b.orders)) [
      | inl e ↦ rw (e, cancel_order) (unknown e)
      | inr (o, e) ↦ elim (Bool-cases (is_cancellable o.status)) [
        | inr t ↦
            rw (e, t, cancel_order)
              (over o e
                (closed_unless_cancellable o (entry_of_lookup id o b.orders h.settled e).1 t))
        | inl t ↦ rw (e, t, cancel_order) (was_open o e (open_if_cancellable o t))
      ]
    ],
    cancel_order-IsBook id b h,
  )

  -- After a cancellation the order under that id, if there is one, is not open.
  cancel_order-closed :
      (id : String) (b : Book F) (o : Order F)
      → IsBook b
      → lookup id (cancel_order id b).orders ≡ some o
      → is_open o.status ≡ false
  unfolding cancel_order
  cancel_order-closed id b o h r = elim (Option-cases (lookup id b.orders)) [
    | inl e ↦ absurd (cc (e, rw (e, cancel_order) at r))
    | inr (p, e) ↦ elim (Bool-cases (is_cancellable p.status)) [
      | inr t ↦
          let same : p ≡ o = ground arith in
          rw (← same) (closed_unless_cancellable p (entry_of_lookup id p b.orders h.settled e).1 t)
      | inl t ↦ ground (arith, lookup-insert_self id (record p { status = cancelled }) b.orders)
    ]
  ]

  accepted_of_open : (o : Order F) → IsSettled o → is_open o.status ≡ true → o.status ≡ accepted
  accepted_of_open o h e = ground arith

  tail_lookup :
      (id j : String) (p o : Order F) (d : Dict String (Order F))
      → lookup j d ≡ none
      → lookup id d ≡ some o
      → lookup id ((j, p) ∷ d) ≡ some o
  tail_lookup id j p o d n l = ground (arith, beq_iff j id)

  open-Entries :
      (id : String) (d : Dict String (Order F))
      → Entries d
      → IsNodup d
      → ((o : Order F) → lookup id d ≡ some o → is_open o.status ≡ false)
      → All
          (λ o. (o.status ≡ accepted) × (o.client_order_id ≢ id))
          (filter (λ o. is_open o.status) (values d))
  open-Entries id [] h n closed = tt
  open-Entries id ((j, p) ∷ d) h n closed =
      let rest = open-Entries id d h.1 n.1 (λ o l. closed o (tail_lookup id j p o d n.0 l)) in
      elim (Bool-cases (is_open p.status)) [
        | inr t ↦ rw t rest
        | inl t ↦ rw t (
          (
            accepted_of_open p h.0.1 t,
            λ q. absurd (cc (t, closed p (rw ((beq_iff j id).1 (sym h.0.0 ∙ q))))),
          ),
          rest,
        )
      ]

  -- In a book that is in order every open order is resting, and after a cancellation none of them has
  -- the id that was cancelled.
  pub cancel_order-closes :
      (id : String) (b : Book F)
      → IsBook b
      → All
          (λ o. (o.status ≡ accepted) × (o.client_order_id ≢ id))
          (get_open_orders (cancel_order id b))
  unfolding get_open_orders
  cancel_order-closes id b h =
      let book = cancel_order-IsBook id b h in
      open-Entries id (cancel_order id b).orders book.settled book.nodup
        (λ o. cancel_order-closed id b o h)
