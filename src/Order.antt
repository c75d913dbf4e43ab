-- ===== src/Order.antt =====
-- include/oms/Types.h and include/oms/Order.h: the scalar types and one order through its life.
-- `InstrumentId`, `VenueId`, `StrategyId`, `AlgoTag` and `TradeId` are the unsigned values; an
-- opaque `ExchangeOrderId` is a text.
pub mod Laws
use delta_assignment.Common.{
  ℕ, ◌==◌, Bool, true, false, String, List, get_or, set, replicate, if◌then◌else◌,
}
use delta_assignment.Common.Int.{ℤ, pos, ◌-ℤ◌, neg, quot, eqb_ℤ}
use delta_assignment.OrderId.{OrderIdRaw}

pub data Side : Type 0 where
  buy sell : Side

pub data OrderType : Type 0 where
  limit market ioc post_only : OrderType

-- signed_qty
abbrev pub signed_qty : Side → ℤ → ℤ
signed_qty Side.buy q = q
signed_qty Side.sell q = neg q

pub data OrderStatus : Type 0 where
  new sent confirmed partially_filled sent_cancel cancel_rejected filled cancelled rejected :
      OrderStatus

abbrev pub is_terminal : OrderStatus → Bool
is_terminal OrderStatus.filled = true
is_terminal OrderStatus.cancelled = true
is_terminal OrderStatus.rejected = true
is_terminal _ = false

pub record OrderTimestamps : Type 0 where
  pub created : ℤ
  pub sent : ℤ
  pub confirmed : ℤ
  pub first_fill : ℤ
  pub last_fill : ℤ
  pub terminal : ℤ

abbrev pub no_timestamps : OrderTimestamps
no_timestamps = record {
  created = pos 0;
  sent = pos 0;
  confirmed = pos 0;
  first_fill = pos 0;
  last_fill = pos 0;
  terminal = pos 0;
}

pub record Order : Type 0 where
  pub internal_id : OrderIdRaw
  pub size : ℤ
  pub filled_size : ℤ
  pub total_fill_amount : ℤ
  pub limit_price : ℤ
  pub instrument : ℕ
  pub status : OrderStatus
  pub side : Side
  pub type : OrderType
  pub pending_cancel : Bool
  pub false_cancel_reject : Bool
  pub exchange_id : String
  pub strategy_id : ℕ
  pub algo_tag : ℕ
  pub ack_timed_out : Bool
  pub reconciliation : Bool
  pub ts : OrderTimestamps
  pub int_data : List ℤ

-- kScratchSlots
abbrev pub scratch_slots : ℕ
scratch_slots = 4

-- `Order{}`, which is also what `OrderPool::acquire` resets a slot to.
abbrev pub fresh_order : Order
fresh_order = record {
  internal_id = 0;
  size = pos 0;
  filled_size = pos 0;
  total_fill_amount = pos 0;
  limit_price = pos 0;
  instrument = 0;
  status = OrderStatus.new;
  side = Side.buy;
  type = OrderType.limit;
  pending_cancel = false;
  false_cancel_reject = false;
  exchange_id = "";
  strategy_id = 0;
  algo_tag = 0;
  ack_timed_out = false;
  reconciliation = false;
  ts = no_timestamps;
  int_data = replicate scratch_slots (pos 0);
}

-- An offset beyond the four scratch slots is undefined behaviour in the source: here such a write
-- is dropped, and such a read gives 0.
abbrev pub store_int_data : Order → ℤ → ℕ → Order
store_int_data o value offset = record o { int_data = set o.int_data offset value }

abbrev pub retrieve_int_data : Order → ℕ → ℤ
retrieve_int_data o offset = get_or o.int_data offset (pos 0)

abbrev pub remaining : Order → ℤ
remaining o = o.size -ℤ o.filled_size

pub avg_fill_price : Order → ℤ
avg_fill_price o =
    if eqb_ℤ o.filled_size (pos 0) then pos 0 else quot o.total_fill_amount o.filled_size
