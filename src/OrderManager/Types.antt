-- ===== src/OrderManager/Types.antt =====
-- The data that the order manager exchanges with its neighbours (include/oms/OrderManager.h and
-- include/oms/ExchangeClient.h).
use delta_assignment.Common.{ℕ, Bool, String, Option}
use delta_assignment.Common.Int.{ℤ}
use delta_assignment.OrderId.{OrderIdRaw}
use delta_assignment.Order.{Side, OrderType, OrderStatus, Order}
use delta_assignment.Position.{Position}
use delta_assignment.Registry.{ExchangeRegistry}

pub data SendResult : Type 0 where
  ok rejected_locally transport_down rate_limited duplicate : SendResult

pub data RejectReason : Type 0 where
  unknown risk_limit invalid_price invalid_size post_only_would_cross rate_limited transport_error
        cancel_rejected :
      RejectReason

pub record OrderRequest : Type 0 where
  pub instrument : ℕ
  pub side : Side
  pub size : ℤ
  pub price : ℤ
  pub type : OrderType
  pub strategy_id : ℕ
  pub algo_tag : ℕ
  pub worker_index : ℤ
  pub worker_offset : ℕ
  pub reconciliation : Bool

pub data EventKind : Type 0 where
  confirm fill reject cancel_ack unsolicited_cancel : EventKind

pub data ValidationResult : Type 0 where
  ok unknown_order terminal_state duplicate_trade stale_cumulative field_mismatch : ValidationResult

pub record EventContext : Type 0 where
  pub kind : EventKind
  pub trade_id : ℕ
  pub qty : ℤ
  pub price : ℤ

pub data OrderEventKind : Type 0 where
  confirmed partial_fill fill rejected cancelled unsolicited_cancel : OrderEventKind

pub record OrderEvent : Type 0 where
  pub kind : OrderEventKind
  pub internal_id : OrderIdRaw
  pub instrument : ℕ
  pub side : Side
  pub last_qty : ℤ
  pub last_price : ℤ
  pub filled_size : ℤ
  pub size : ℤ
  pub status : OrderStatus
  pub reason : RejectReason
  pub ts : ℤ

-- An exchange client as the order manager meets it in one call: whether it is connected, and what it
-- answers to the two sends.
pub record Client : Type 0 where
  pub is_connected : Bool
  pub place_order : Order → SendResult
  pub cancel_order : OrderIdRaw → String → SendResult

-- The neighbours behind interfaces: Router::select, the registry, the clock.
pub record Env : Type 0 where
  pub select : ℕ → Side → ℤ → Option ℕ
  pub registry : ExchangeRegistry Client
  pub now : ℤ

-- A call that the order manager makes of a neighbour. `published` carries the position of the event's
-- instrument and its pending quantity as a subscriber finds them when it is called.
pub data Effect : Type 0 where
  placed : ℕ → Order → Effect
  cancel_sent : ℕ → OrderIdRaw → String → Effect
  health_order_sent : ℕ → ℤ → Effect
  health_ack : ℕ → ℤ → Effect
  health_reject : ℕ → Bool → Effect
  health_fill : ℕ → Effect
  health_timeout : ℕ → Effect
  health_disconnect : ℕ → Effect
  health_reconnect : ℕ → Effect
  published : OrderEvent → Position → ℤ → Effect
