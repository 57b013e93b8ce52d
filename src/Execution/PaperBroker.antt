-- ===== src/Execution/PaperBroker.antt =====
-- src/market_trader/execution/paper_broker.py: the in-memory broker. `submit_order` writes into the
-- order that it is given and keeps it; the model returns the written order and stores it.
pub mod Moved
pub mod Submission
pub mod OrderBook
mod Tests
use market_trader.Prelude.{
  String, Bool, true, false, not, ◌&&◌, ◌||◌, Option, none, some, List, [], ◌∷◌, map, Result, ok,
  err, filter, if◌then◌else◌,
}
use market_trader.Prelude.Eq.{string_eq}
use market_trader.Prelude.Dict.{Dict, lookup, insert, erase, values, get_or}
use market_trader.Float.{Float, nought, fmax}
use market_trader.Execution.Broker.{
  Broker, BrokerError, Order, OrderSide, buy, sell, is_sell, OrderStatus, new, submitted, accepted,
  partially_filled, filled, rejected, cancelled, expired, Position, Account,
}
use market_trader.Execution.Guardrails.{is_limit}

pub record PaperBroker (F : Type 0) : Type 0 where
  pub prices : Dict String F
  pub cash : F
  pub positions : Dict String (Position F)
  pub orders : Dict String (Order F)

-- `get_open_orders`'s states.
abbrev pub is_open : OrderStatus → Bool
is_open new = true
is_open submitted = true
is_open accepted = true
is_open partially_filled = true
is_open filled = false
is_open rejected = false
is_open cancelled = false
is_open expired = false

-- The states that `cancel_order` cancels.
abbrev pub is_cancellable : OrderStatus → Bool
is_cancellable new = true
is_cancellable submitted = true
is_cancellable accepted = true
is_cancellable partially_filled = false
is_cancellable filled = false
is_cancellable rejected = false
is_cancellable cancelled = false
is_cancellable expired = false

-- Two Python Booleans are equal.
abbrev pub same_bool : Bool → Bool → Bool
same_bool true b = b
same_bool false b = not b

module _ {F : Type 0} ⦃f : Float F⦄ where
  unfoldable pub new_broker : Dict String F → F → PaperBroker F
  new_broker prices starting_cash = record {
    prices = prices;
    cash = starting_cash;
    positions = [];
    orders = [];
  }

  unfoldable pub set_price : String → F → PaperBroker F → PaperBroker F
  set_price symbol price b = record b { prices = insert symbol price b.prices }

  -- `Position(symbol, qty, avg_price)`, with the defaults of the other fields.
  abbrev pub position : String → F → F → Position F
  position symbol qty avg = record {
    symbol = symbol;
    qty = qty;
    avg_price = avg;
    market_value = nought;
    unrealized_pl = nought;
  }

  -- `_apply_fill` on the positions.
  unfoldable pub apply_fill : String → F → F → Dict String (Position F) → Dict String (Position F)
  apply_fill symbol signed_qty price positions = elim (lookup symbol positions) [
    | none ↦ insert symbol (position symbol signed_qty price) positions
    | some pos ↦
        let new_qty = f.add pos.qty signed_qty in
        if f.lt (f.abs new_qty) (f.lit 1 12)
        then erase symbol positions
        else if same_bool (f.lt nought pos.qty) (f.lt nought signed_qty)
        then insert symbol
            (position symbol new_qty
              (f.div (f.add (f.mul pos.avg_price pos.qty) (f.mul price signed_qty)) new_qty))
            positions
        else insert symbol
            (position symbol new_qty (
              if same_bool (f.lt nought new_qty) (f.lt nought pos.qty)
              then pos.avg_price
              else price))
            positions
  ]

  -- The limit of a limit order that has one.
  abbrev pub limit_of : Order F → Option F
  limit_of o = if is_limit o.order_type then o.limit_price else none

  -- `marketable`
  abbrev pub is_marketable : OrderSide → F → F → Bool
  is_marketable buy price limit_price = f.le price limit_price
  is_marketable sell price limit_price = f.le limit_price price

  abbrev pub signed_qty : Order F → F
  signed_qty o = elim o.side [ buy ↦ o.qty | sell ↦ f.neg o.qty ]

  abbrev pub keep_order : Order F → PaperBroker F → Order F × PaperBroker F
  keep_order o b = (o, record b { orders = insert o.client_order_id o b.orders })

  abbrev pub reject : Order F → PaperBroker F → Order F × PaperBroker F
  reject o b = keep_order (record o { status = rejected; reason = some "no market price" }) b

  abbrev pub rest : Order F → PaperBroker F → Order F × PaperBroker F
  rest o b = keep_order (record o { status = accepted }) b

  unfoldable pub fill : Order F → F → PaperBroker F → Order F × PaperBroker F
  fill o fill_price b =
      keep_order
        (record o { status = filled; filled_qty = o.qty; filled_avg_price = some fill_price })
        (record b {
          positions = apply_fill o.symbol (signed_qty o) fill_price b.positions;
          cash = f.sub b.cash (f.mul (signed_qty o) fill_price);
        })

  -- An order with a new id, at a market price.
  abbrev pub execute : Order F → F → PaperBroker F → Order F × PaperBroker F
  execute o price b = elim (limit_of o) [
    | none ↦ fill o price b
    | some limit_price ↦
        if is_marketable o.side price limit_price then fill o limit_price b else rest o b
  ]

  unfoldable pub submit_order : Order F → PaperBroker F → Order F × PaperBroker F
  submit_order o b = elim (lookup o.client_order_id b.orders) [
    | some known ↦ (known, b)
    | none ↦ elim (lookup o.symbol b.prices) [
      | none ↦ reject o b
      | some price ↦ if f.le price nought then reject o b else execute o price b
    ]
  ]

  unfoldable pub cancel_order : String → PaperBroker F → PaperBroker F
  cancel_order id b = elim (lookup id b.orders) [
    | none ↦ b
    | some o ↦
        if is_cancellable o.status
        then record b { orders = insert id (record o { status = cancelled }) b.orders }
        else b
  ]

  unfoldable pub get_positions : PaperBroker F → List (Position F)
  get_positions b = values b.positions

  unfoldable pub get_open_orders : PaperBroker F → List (Order F)
  get_open_orders b = filter (λ o. is_open o.status) (values b.orders)

  unfoldable pub get_account : PaperBroker F → Account F
  get_account b =
      let market_value =
        f.sum
          (map (λ p. f.mul p.qty (get_or p.symbol p.avg_price b.prices)) (values b.positions)) in
      record {
        equity = f.add b.cash market_value;
        cash = b.cash;
        buying_power = fmax b.cash nought;
        last_equity = nought;
      }

  -- The broker behind the interface: no call of it raises.
  abbrev pub paper_broker : Broker F (PaperBroker F)
  paper_broker = record {
    submit_order = λ o b. (ok (submit_order o b).0, (submit_order o b).1);
    cancel_order = λ id b. (ok tt, cancel_order id b);
    get_positions = λ b. ok (get_positions b);
    get_open_orders = λ b. ok (get_open_orders b);
    get_account = λ b. ok (get_account b);
  }
