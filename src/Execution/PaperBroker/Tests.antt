-- ===== src/Execution/PaperBroker/Tests.antt =====
-- A paper broker with one price: a fill, a retry, a resting order and its cancellation.
use market_trader.Prelude.{◌≡◌, ◌≢◌, refl, some, [], ◌∷◌, All}
use market_trader.Prelude.Eq.{string_eq}
use market_trader.Float.Fixed.{Fixed, whole, fixed_float}
use market_trader.Execution.Broker.{Order, buy, limit, market_order, accepted}
use market_trader.Execution.PaperBroker.{submit_order, fill, cancel_order, get_open_orders}
use market_trader.Execution.PaperBroker.Submission.{Book, IsSubmitted, submit_order-IsSubmitted}
use market_trader.Execution.PaperBroker.OrderBook.{
  IsBook, submit_order_idem, submit_order-IsBook, IsCancelled, cancel_order-IsCancelled,
  cancel_order-closes,
}

abbrev start : Book Fixed
start = record { prices = ("AAPL", whole 10) ∷ []; cash = whole 1000; positions = []; orders = [] }

abbrev bought : Order Fixed
bought = market_order "a" "AAPL" buy (whole 5)

-- The same id, with another quantity.
abbrev again : Order Fixed
again = market_order "a" "AAPL" buy (whole 50)

abbrev resting : Order Fixed
resting = record (market_order "b" "AAPL" buy (whole 5)) {
  order_type = limit;
  limit_price = some (whole 9);
}

pays : (submit_order bought start).1.cash ≡ whole 950
unfolding submit_order fill
pays = refl

rests : get_open_orders (submit_order resting start).1 ≡ record resting { status = accepted } ∷ []
unfolding submit_order get_open_orders
rests = refl

empty-IsBook : IsBook start
empty-IsBook = record { settled = tt; nodup = tt }

submit_order-IsSubmitted_example :
    IsSubmitted bought start (submit_order bought start).0 (submit_order bought start).1
submit_order-IsSubmitted_example = submit_order-IsSubmitted bought start

submit_order_idem_example :
    submit_order again (submit_order bought start).1 ≡ submit_order bought start
submit_order_idem_example = submit_order_idem bought again start refl

submit_order-IsBook_example : IsBook (submit_order resting start).1
submit_order-IsBook_example = submit_order-IsBook resting start empty-IsBook

cancel_order-IsCancelled_example :
    IsCancelled "b" (submit_order resting start).1 (cancel_order "b" (submit_order resting start).1)
    × IsBook (cancel_order "b" (submit_order resting start).1)
cancel_order-IsCancelled_example =
    cancel_order-IsCancelled "b" (submit_order resting start).1
      (submit_order-IsBook resting start empty-IsBook)

cancel_order-closes_example :
    All
      (λ o. (o.status ≡ accepted) × (o.client_order_id ≢ "b"))
      (get_open_orders (cancel_order "b" (submit_order resting start).1))
cancel_order-closes_example =
    cancel_order-closes "b" (submit_order resting start).1
      (submit_order-IsBook resting start empty-IsBook)
