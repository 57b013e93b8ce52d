-- ===== src/Execution/Broker.antt =====
-- src/market_trader/execution/broker.py: orders, positions, and the broker interface.
use market_trader.Prelude.{String, Bool, true, false, Option, none, List, Result}
use market_trader.Float.{Float, nought}

-- `BrokerError`, by its message.
abbrev pub BrokerError : Type 0
BrokerError = String

pub data OrderSide : Type 0 where
  buy sell : OrderSide

pub data OrderType : Type 0 where
  market limit : OrderType

pub data OrderStatus : Type 0 where
  new submitted accepted partially_filled filled rejected cancelled expired : OrderStatus

pub record Order (F : Type 0) : Type 0 where
  pub client_order_id : String
  pub symbol : String
  pub side : OrderSide
  pub qty : F
  pub order_type : OrderType
  pub limit_price : Option F
  pub status : OrderStatus
  pub filled_qty : F
  pub filled_avg_price : Option F
  pub reason : Option String

pub record Position (F : Type 0) : Type 0 where
  pub symbol : String
  pub qty : F
  pub avg_price : F
  pub market_value : F
  pub unrealized_pl : F

pub record Account (F : Type 0) : Type 0 where
  pub equity : F
  pub cash : F
  pub buying_power : F
  pub last_equity : F

-- `OrderStatus.value` and `OrderSide.value`
abbrev pub status_text : OrderStatus → String
status_text new = "new"
status_text submitted = "submitted"
status_text accepted = "accepted"
status_text partially_filled = "partially_filled"
status_text filled = "filled"
status_text rejected = "rejected"
status_text cancelled = "cancelled"
status_text expired = "expired"

abbrev pub side_text : OrderSide → String
side_text buy = "buy"
side_text sell = "sell"

abbrev pub is_sell : OrderSide → Bool
is_sell buy = false
is_sell sell = true

module _ {F : Type 0} ⦃f : Float F⦄ where
  -- `Order(client_order_id, symbol, side, qty)`, with the defaults of the other fields.
  abbrev pub market_order : String → String → OrderSide → F → Order F
  market_order id symbol side qty = record {
    client_order_id = id;
    symbol = symbol;
    side = side;
    qty = qty;
    order_type = market;
    limit_price = none;
    status = new;
    filled_qty = nought;
    filled_avg_price = none;
    reason = none;
  }

-- The `Broker` protocol over a broker's state `B`. The `get_` calls are queries, which leave the
-- state alone; each call may raise `BrokerError`, and a submission that raises may still change it.
pub record Broker (F B : Type 0) : Type 0 where
  pub submit_order : Order F → B → Result BrokerError (Order F) × B
  pub cancel_order : String → B → Result BrokerError (Unit {0}) × B
  pub get_positions : B → Result BrokerError (List (Position F))
  pub get_open_orders : B → Result BrokerError (List (Order F))
  pub get_account : B → Result BrokerError (Account F)
