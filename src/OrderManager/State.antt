-- ===== src/OrderManager/State.antt =====
-- The fields of `class OrderManager` (include/oms/OrderManager.h) and its queries. The trace lists the
-- calls of its neighbours, latest first; log lines are left out. `stopped` records a failed
-- assertion of the pool.
use delta_assignment.Common.{ℕ, Bool, false, List, [], ◌∷◌, Option, none, some, if◌then◌else◌}
use delta_assignment.Common.Int.{ℤ, pos, ◌+ℤ◌, ◌-ℤ◌}
use delta_assignment.Common.Dict.{Dict, find_or, insert, keys}
use delta_assignment.OrderId.{OrderIdRaw, decode_order_id}
use delta_assignment.Order.{Order}
use delta_assignment.Position.{Position, flat}
use delta_assignment.Pool.{OrderPool, make_pool, is_current, order_at, set_order}
use delta_assignment.OrderManager.Types.{Effect}

-- The text of `kill_reason_` by what it names.
pub data KillReason : Type 0 where
  order_pool_exhausted : ℕ → ℕ → KillReason
  order_filled_not_in_system : OrderIdRaw → KillReason

pub record OrderManager : Type 0 where
  pub pool : OrderPool
  pub positions : Dict Position
  pub pending_signed : Dict ℤ
  pub venue_seq : Dict ℕ
  pub trade_ids : Dict (List ℕ)
  pub live : List OrderIdRaw
  pub expected_false_cancel_rejects : List OrderIdRaw
  pub retired_fifo : List OrderIdRaw
  pub retired_grace : ℕ
  pub killed : Bool
  pub kill_reason : Option KillReason
  pub rebalance_incomplete : Bool
  pub false_cancel_reject_count : ℕ
  pub reconcile_requested : Bool
  pub unknown_fill_count : ℕ
  pub unknown_fill_hardstop_threshold : ℕ
  pub reject_count : ℕ
  pub ack_timeout_count : ℕ
  pub unsolicited_cancel_count : ℕ
  pub oos_dropped_count : ℕ
  pub stopped : Bool
  pub trace : List Effect

-- OrderManager::OrderManager
unfoldable pub make_order_manager : ℕ → OrderManager
make_order_manager pool_capacity = record {
  pool = make_pool pool_capacity;
  positions = [];
  pending_signed = [];
  venue_seq = [];
  trade_ids = [];
  live = [];
  expected_false_cancel_rejects = [];
  retired_fifo = [];
  retired_grace = 4096;
  killed = false;
  kill_reason = none;
  rebalance_incomplete = false;
  false_cancel_reject_count = 0;
  reconcile_requested = false;
  unknown_fill_count = 0;
  unknown_fill_hardstop_threshold = 3;
  reject_count = 0;
  ack_timeout_count = 0;
  unsolicited_cancel_count = 0;
  oos_dropped_count = 0;
  stopped = false;
  trace = [];
}

-- OrderManager::slot_of
abbrev pub slot_of : OrderIdRaw → ℕ
slot_of id = (decode_order_id id).slot

abbrev pub venue_of : OrderIdRaw → ℕ
venue_of id = (decode_order_id id).venue

-- OrderManager::order_ref, to read
abbrev pub order_ref : OrderManager → OrderIdRaw → Order
order_ref om id = order_at om.pool (slot_of id)

-- OrderManager::order_ref, to write
abbrev pub put_order : OrderManager → OrderIdRaw → Order → OrderManager
put_order om id o = record om { pool = set_order om.pool (slot_of id) o }

-- A call of a neighbour.
abbrev pub emit : Effect → OrderManager → OrderManager
emit e om = record om { trace = e ∷ om.trace }

-- OrderManager::position
abbrev pub position : OrderManager → ℕ → Position
position om inst = find_or flat inst om.positions

-- OrderManager::pending_quantity
abbrev pub pending_quantity : OrderManager → ℕ → ℤ
pending_quantity om inst = find_or (pos 0) inst om.pending_signed

-- OrderManager::find
unfoldable pub find : OrderManager → OrderIdRaw → Option Order
find om id = if is_current om.pool id then some (order_ref om id) else none

-- OrderManager::instruments
abbrev pub instruments : OrderManager → List ℕ
instruments om = keys om.positions

-- OrderManager::execution_delta
unfoldable pub execution_delta : OrderManager → ℕ → ℤ → ℤ
execution_delta om inst target = target -ℤ ((position om inst).net +ℤ pending_quantity om inst)

-- pending_signed_[inst] += q
abbrev pub add_pending : OrderManager → ℕ → ℤ → OrderManager
add_pending om inst q = record om {
  pending_signed = insert inst (pending_quantity om inst +ℤ q) om.pending_signed;
}

-- pending_signed_[inst] -= q
abbrev pub sub_pending : OrderManager → ℕ → ℤ → OrderManager
sub_pending om inst q = record om {
  pending_signed = insert inst (pending_quantity om inst -ℤ q) om.pending_signed;
}

-- OrderManager::set_unknown_fill_hardstop_threshold
abbrev pub set_unknown_fill_hardstop_threshold : OrderManager → ℕ → OrderManager
set_unknown_fill_hardstop_threshold om n = record om { unknown_fill_hardstop_threshold = n }

-- OrderManager::reset_rebalance_cycle
abbrev pub reset_rebalance_cycle : OrderManager → OrderManager
reset_rebalance_cycle om = record om { rebalance_incomplete = false }

-- OrderManager::clear_reconcile_request
abbrev pub clear_reconcile_request : OrderManager → OrderManager
clear_reconcile_request om = record om { reconcile_requested = false }
