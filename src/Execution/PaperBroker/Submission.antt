-- ===== src/Execution/PaperBroker/Submission.antt =====
-- What a submission to the paper broker does: how the order is left, at what price it fills, and what
-- that does to the cash and the positions.
use market_trader.Prelude.{
  String, ◌≡◌, refl, true, false, Option, none, some, arith, ◌⊎◌, inl, inr, Bool-cases,
  Option-cases,
}
use market_trader.Prelude.Eq.{string_eq, beq_refl}
use market_trader.Prelude.Dict.{lookup, insert, lookup-insert}
use market_trader.Float.{Float, nought}
use market_trader.Execution.Broker.{
  Order, OrderSide, OrderStatus, buy, sell, market, limit, accepted, filled, rejected,
}
use market_trader.Execution.PaperBroker.Moved.{Moved, apply_fill-Moved}
use market_trader.Execution.PaperBroker
use market_trader.Execution.PaperBroker.{
  submit_order, fill, keep_order, reject, limit_of, is_marketable, execute, apply_fill, signed_qty,
  position, same_bool,
}

abbrev pub Book : Type 0 → Type 0
Book F = PaperBroker.PaperBroker F

side_cases : (s : OrderSide) → (s ≡ buy) ⊎ (s ≡ sell)
side_cases buy = inl refl
side_cases sell = inr refl

module _ {F : Type 0} ⦃f : Float F⦄ where
  -- What was ordered, which the broker does not change.
  pub record SameTerms (o r : Order F) : Type 0 where
    pub same_id : r.client_order_id ≡ o.client_order_id
    pub same_symbol : r.symbol ≡ o.symbol
    pub same_side : r.side ≡ o.side
    pub same_qty : r.qty ≡ o.qty
    pub same_type : r.order_type ≡ o.order_type
    pub same_limit : r.limit_price ≡ o.limit_price

  -- The symbol has a market price above zero, or it has none.
  abbrev pub IsPrice : Order F → Book F → F → Type 0
  IsPrice o b price = (lookup o.symbol b.prices ≡ some price) × (f.le price nought ≡ false)

  abbrev pub IsUnpriced : Order F → Book F → Type 0
  IsUnpriced o b =
      (lookup o.symbol b.prices ≡ none)
      ⊎ ((price : F) × (lookup o.symbol b.prices ≡ some price) × (f.le price nought ≡ true))

  abbrev pub HasLimit : Order F → F → Type 0
  HasLimit o l = (o.order_type ≡ limit) × (o.limit_price ≡ some l)

  -- The price that an order fills at: the market's if it has no limit; else its limit, which the market
  -- has reached.
  pub data FillsAt (o : Order F) (price : F) : F → Type 0 where
    at_market : ((o.order_type ≡ market) ⊎ (o.limit_price ≡ none)) → FillsAt o price price
    bought_at_limit :
        (l : F) → HasLimit o l → o.side ≡ buy → f.le price l ≡ true → FillsAt o price l
    sold_at_limit : (l : F) → HasLimit o l → o.side ≡ sell → f.le l price ≡ true → FillsAt o price l

  -- The market has not reached the limit.
  pub data IsAway (o : Order F) (price : F) : Type 0 where
    above : (l : F) → HasLimit o l → o.side ≡ buy → f.le price l ≡ false → IsAway o price
    below : (l : F) → HasLimit o l → o.side ≡ sell → f.le l price ≡ false → IsAway o price

  -- The quantity with the sign of the side.
  abbrev pub IsSigned : Order F → F → Type 0
  IsSigned o d = ((o.side ≡ buy) × (d ≡ o.qty)) ⊎ ((o.side ≡ sell) × (d ≡ f.neg o.qty))

  -- How a new order is left, and why.
  pub data IsLeft (o : Order F) (b : Book F) (r : Order F) (b' : Book F) : Type 0 where
    is_rejected :
        IsUnpriced o b
        → r.status ≡ rejected
        → r.filled_qty ≡ o.filled_qty
        → b'.cash ≡ b.cash
        → b'.positions ≡ b.positions
        → IsLeft o b r b'
    is_resting :
        (price : F)
        → IsPrice o b price
        → IsAway o price
        → r.status ≡ accepted
        → r.filled_qty ≡ o.filled_qty
        → b'.cash ≡ b.cash
        → b'.positions ≡ b.positions
        → IsLeft o b r b'
    is_filled :
        (price q d : F)
        → IsPrice o b price
        → FillsAt o price q
        → IsSigned o d
        → r.status ≡ filled
        → (r.filled_qty ≡ o.qty) × (r.filled_avg_price ≡ some q)
        → b'.cash ≡ f.sub b.cash (f.mul d q)
        → Moved o.symbol d q b.positions b'.positions
        → IsLeft o b r b'

  -- What a submission does: it finds the id and changes nothing, or leaves the new order, with its terms,
  -- in the book under its id.
  pub record IsSubmitted (o : Order F) (b : Book F) (r : Order F) (b' : Book F) : Type 0 where
    pub stored : lookup o.client_order_id b'.orders ≡ some r
    pub prices : b'.prices ≡ b.prices
    pub book :
        ((lookup o.client_order_id b.orders ≡ some r) × (b' ≡ b))
        ⊎ ((lookup o.client_order_id b.orders ≡ none)
            × (b'.orders ≡ insert o.client_order_id r b.orders)
            × SameTerms o r
            × IsLeft o b r b')

  -- An order of which the status and the reason were written.
  unchanged :
      (o : Order F) (status : OrderStatus) (reason : Option String)
      → SameTerms o (record o { status = status; reason = reason })
  unchanged o status reason = record {
    same_id = refl;
    same_symbol = refl;
    same_side = refl;
    same_qty = refl;
    same_type = refl;
    same_limit = refl;
  }

  -- A new order that is kept.
  kept :
      (o r : Order F) (b c : Book F)
      → lookup o.client_order_id b.orders ≡ none
      → SameTerms o r
      → (c.orders ≡ b.orders) × (c.prices ≡ b.prices)
      → IsLeft o b r (keep_order r c).1
      → IsSubmitted o b r (keep_order r c).1
  kept o r b c unknown same kept_rest left = record {
    stored = rw (← same.same_id) (
        rw (lookup-insert r.client_order_id r.client_order_id r c.orders)
          (rw (beq_refl r.client_order_id) refl));
    prices = kept_rest.1;
    book = inr (unknown, rw (same.same_id, kept_rest.0) refl, same, left);
  }

  signed_qty-IsSigned : (o : Order F) → IsSigned o (signed_qty o)
  signed_qty-IsSigned o = ground arith

  filled-IsSubmitted :
      (o : Order F) (price q : F) (b : Book F)
      → lookup o.client_order_id b.orders ≡ none
      → IsPrice o b price
      → FillsAt o price q
      → IsSubmitted o b (fill o q b).0 (fill o q b).1
  unfolding fill
  filled-IsSubmitted o price q b e p at =
      kept o _ b _ e
        (record {
          same_id = refl;
          same_symbol = refl;
          same_side = refl;
          same_qty = refl;
          same_type = refl;
          same_limit = refl;
        })
        (refl, refl)
        (is_filled price q (signed_qty o) p at (signed_qty-IsSigned o) refl (refl, refl) refl
          (apply_fill-Moved o.symbol (signed_qty o) q b.positions))

  limit_of-HasLimit : (o : Order F) (l : F) → limit_of o ≡ some l → HasLimit o l
  limit_of-HasLimit o l h = ground arith

  limit_of-none :
      (o : Order F) → limit_of o ≡ none → (o.order_type ≡ market) ⊎ (o.limit_price ≡ none)
  limit_of-none o h = ground arith

  marketable-FillsAt :
      (o : Order F) (price l : F)
      → HasLimit o l
      → is_marketable o.side price l ≡ true
      → FillsAt o price l
  marketable-FillsAt o price l h m = elim (side_cases o.side) [
    | inl s ↦ bought_at_limit l h s (rw s at m)
    | inr s ↦ sold_at_limit l h s (rw s at m)
  ]

  unmarketable-IsAway :
      (o : Order F) (price l : F)
      → HasLimit o l
      → is_marketable o.side price l ≡ false
      → IsAway o price
  unmarketable-IsAway o price l h m = elim (side_cases o.side) [
    | inl s ↦ above l h s (rw s at m)
    | inr s ↦ below l h s (rw s at m)
  ]

  executed-IsSubmitted :
      (o : Order F) (price : F) (b : Book F)
      → lookup o.client_order_id b.orders ≡ none
      → IsPrice o b price
      → IsSubmitted o b (execute o price b).0 (execute o price b).1
  executed-IsSubmitted o price b e p = elim (Option-cases (limit_of o)) [
    | inl l ↦
        rw (l, execute) (filled-IsSubmitted o price price b e p (at_market (limit_of-none o l)))
    | inr (limit_price, l) ↦
        let has = limit_of-HasLimit o limit_price l in
        elim (Bool-cases (is_marketable o.side price limit_price)) [
          | inl m ↦
              rw (l, m, execute)
                (filled-IsSubmitted o price limit_price b e p
                  (marketable-FillsAt o price limit_price has m))
          | inr m ↦
              rw (l, m, execute)
                (kept o _ b b e (unchanged o accepted o.reason) (refl, refl)
                  (is_resting price p (unmarketable-IsAway o price limit_price has m) refl refl refl
                    refl))
        ]
  ]

  rejected-IsSubmitted :
      (o : Order F) (b : Book F)
      → lookup o.client_order_id b.orders ≡ none
      → IsUnpriced o b
      → IsSubmitted o b (reject o b).0 (reject o b).1
  rejected-IsSubmitted o b e u =
      kept o _ b b e (unchanged o rejected (some "no market price")) (refl, refl)
        (is_rejected u refl refl refl refl)

  -- Every submission, on every branch. If the id is known, the stored order comes back and nothing
  -- changes. Otherwise the order is stored under its id with the terms it was given: rejected exactly
  -- when its symbol has no price above zero; resting when the market has not reached its limit; else
  -- filled in full, at the market price or at the limit that the market has reached. A fill pays the
  -- signed quantity at that price from the cash and moves the position in its symbol only; otherwise
  -- cash and positions stay. The prices always stay.
  pub submit_order-IsSubmitted :
      (o : Order F) (b : Book F) → IsSubmitted o b (submit_order o b).0 (submit_order o b).1
  unfolding submit_order
  submit_order-IsSubmitted o b = elim (Option-cases (lookup o.client_order_id b.orders)) [
    | inr (known, e) ↦
        rw (e, submit_order) (record { stored = e; prices = refl; book = inl (e, refl) })
    | inl e ↦ elim (Option-cases (lookup o.symbol b.prices)) [
      | inl n ↦ rw (e, n, submit_order) (rejected-IsSubmitted o b e (inl n))
      | inr (price, n) ↦ elim (Bool-cases (f.le price nought)) [
        | inl z ↦ rw (e, n, z, submit_order) (rejected-IsSubmitted o b e (inr (price, n, z)))
        | inr z ↦ rw (e, n, z, submit_order) (executed-IsSubmitted o price b e (n, z))
      ]
    ]
  ]
