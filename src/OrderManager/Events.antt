-- ===== src/OrderManager/Events.antt =====
-- The inbound handlers of src/OrderManager.cpp, called from a client's `poll`.
use delta_assignment.Common.{
  bump, ℕ, Bool, true, false, String, [], contains, add, remove, ltb, if◌then◌else◌,
}
use delta_assignment.Common.Int.{ℤ, pos, ◌+ℤ◌, ◌-ℤ◌, ◌*ℤ◌, ltb_ℤ, eqb_ℤ}
use delta_assignment.Common.Dict.{find_or, insert}
use delta_assignment.OrderId.{OrderIdRaw}
use delta_assignment.Order.{Order, OrderStatus, remaining, signed_qty}
use delta_assignment.Position.{apply}
use delta_assignment.OrderManager.Types.{
  EventKind, EventContext, ValidationResult, OrderEventKind, OrderEvent, RejectReason, Effect,
}
use delta_assignment.OrderManager.State.{
  OrderManager, KillReason, venue_of, order_ref, put_order, position, sub_pending, emit,
}
use delta_assignment.OrderManager.Guards.{validate, bare, publish, trip_kill_switch, retire}

-- An event that did not validate: it is logged, counted and dropped.
abbrev pub drop_event : OrderManager → OrderManager
drop_event om = record om { oos_dropped_count = bump om.oos_dropped_count }

-- `if (vr != ValidationResult::Ok) { ...; return; }`
abbrev pub when_ok : ValidationResult → OrderManager → OrderManager → OrderManager
when_ok ValidationResult.ok accepted refused = accepted
when_ok _ accepted refused = refused

-- The event that a handler publishes about an order.
abbrev pub event_of : OrderEventKind → OrderIdRaw → Order → ℤ → ℤ → RejectReason → ℤ → OrderEvent
event_of kind id o qty price reason ts = record {
  kind = kind;
  internal_id = id;
  instrument = o.instrument;
  side = o.side;
  last_qty = qty;
  last_price = price;
  filled_size = o.filled_size;
  size = o.size;
  status = o.status;
  reason = reason;
  ts = ts;
}

abbrev pub confirmed_status : OrderStatus → OrderStatus
confirmed_status OrderStatus.new = OrderStatus.confirmed
confirmed_status OrderStatus.sent = OrderStatus.confirmed
confirmed_status s = s

-- The order after a confirmation.
abbrev pub confirm_order : Order → String → ℤ → Order
confirm_order o exch_id ts = record o {
  exchange_id = exch_id;
  status = confirmed_status o.status;
  ts = record o.ts { confirmed = ts };
}

-- OrderManager::on_confirm, past its guard
abbrev pub apply_confirm : OrderIdRaw → String → ℤ → OrderManager → OrderManager
apply_confirm id exch_id ts om =
    let o = confirm_order (order_ref om id) exch_id ts in
    publish (event_of OrderEventKind.confirmed id o (pos 0) (pos 0) RejectReason.unknown ts)
      (emit (Effect.health_ack (venue_of id) (ts -ℤ o.ts.sent)) (put_order om id o))

-- OrderManager::on_confirm
unfoldable pub on_confirm : OrderManager → OrderIdRaw → String → ℤ → OrderManager
on_confirm om id exch_id ts =
    when_ok (validate om id (bare EventKind.confirm)) (apply_confirm id exch_id ts om)
      (drop_event om)

-- Mode 4: a fill of an unknown order.
abbrev pub unknown_fill : OrderIdRaw → OrderManager → OrderManager
unknown_fill id om =
    let om' = record om {
      unknown_fill_count = bump om.unknown_fill_count;
      reconcile_requested = true;
    } in
    if ltb om'.unknown_fill_hardstop_threshold om'.unknown_fill_count
    then trip_kill_switch (KillReason.order_filled_not_in_system id) om'
    else om'

-- What else happens to a fill that did not validate.
abbrev pub refuse_fill : ValidationResult → OrderIdRaw → OrderManager → OrderManager
refuse_fill ValidationResult.unknown_order id om = unknown_fill id om
refuse_fill _ id om = om

abbrev pub fill_context : ℕ → ℤ → ℤ → EventContext
fill_context trade qty price = record {
  kind = EventKind.fill;
  trade_id = trade;
  qty = qty;
  price = price;
}

-- Whether a fill of `qty` completes the order.
abbrev pub is_final : Order → ℤ → Bool
is_final o qty = eqb_ℤ (o.filled_size +ℤ qty) o.size

-- The order after a fill.
abbrev pub fill_order : Order → ℤ → ℤ → ℤ → Order
fill_order o qty price ts = record o {
  filled_size = o.filled_size +ℤ qty;
  total_fill_amount = o.total_fill_amount +ℤ qty *ℤ price;
  status = if is_final o qty then OrderStatus.filled else OrderStatus.partially_filled;
  ts = record o.ts {
    first_fill = if eqb_ℤ o.ts.first_fill (pos 0) then ts else o.ts.first_fill;
    last_fill = ts;
    terminal = if is_final o qty then ts else o.ts.terminal;
  };
}

-- The accounting of a fill: the trade id, the order, the position and the pending quantity.
unfoldable pub book_fill : OrderIdRaw → ℤ → ℤ → ℕ → ℤ → OrderManager → OrderManager
book_fill id qty price trade ts om =
    let o = order_ref om id in
    let signed = signed_qty o.side qty in
    sub_pending
      (put_order
        (record om {
          trade_ids = insert id (add trade (find_or [] id om.trade_ids)) om.trade_ids;
          positions =
              insert o.instrument (apply (position om o.instrument) signed price ts (pos 0))
                om.positions;
        })
        id (fill_order o qty price ts))
      o.instrument signed

-- The tail of OrderManager::on_fill for a completed order.
unfoldable pub finish_fill : OrderIdRaw → OrderManager → OrderManager
unfolding retire
finish_fill id om =
    let o = order_ref om id in
    let om' =
      if o.pending_cancel
      then record om {
        expected_false_cancel_rejects = add id om.expected_false_cancel_rejects;
        false_cancel_reject_count = bump om.false_cancel_reject_count;
      }
      else om in
    retire id o.instrument (pos 0) o.side om'

-- The fill is booked, health is told and the event is published.
unfoldable pub tell_fill : OrderIdRaw → ℤ → ℤ → ℕ → ℤ → OrderManager → OrderManager
unfolding book_fill
tell_fill id qty price trade ts om =
    let o = order_ref om id in
    publish
      (event_of (if is_final o qty then OrderEventKind.fill else OrderEventKind.partial_fill) id
        (fill_order o qty price ts) qty price RejectReason.unknown ts)
      (emit (Effect.health_fill (venue_of id)) (book_fill id qty price trade ts om))

-- OrderManager::on_fill, past its guard
unfoldable pub apply_fill : OrderIdRaw → ℤ → ℤ → ℕ → ℤ → OrderManager → OrderManager
unfolding tell_fill finish_fill
apply_fill id qty price trade ts om =
    let told = tell_fill id qty price trade ts om in
    if is_final (order_ref om id) qty then finish_fill id told else told

-- OrderManager::on_fill
unfoldable pub on_fill : OrderManager → OrderIdRaw → ℤ → ℤ → ℕ → ℤ → OrderManager
unfolding apply_fill
on_fill om id qty price trade ts =
    let vr = validate om id (fill_context trade qty price) in
    when_ok vr (apply_fill id qty price trade ts om) (refuse_fill vr id (drop_event om))

-- A cancel-reject of a working order: the order goes on.
abbrev pub revive_order : Order → Order
revive_order o = record o {
  pending_cancel = false;
  status =
      if ltb_ℤ (pos 0) o.filled_size then OrderStatus.partially_filled else OrderStatus.confirmed;
}

abbrev pub apply_cancel_reject : OrderIdRaw → OrderManager → OrderManager
apply_cancel_reject id om =
    let om' = put_order om id (revive_order (order_ref om id)) in
    emit (Effect.health_reject (venue_of id) false)
      (record om' { reject_count = bump om.reject_count })

-- OrderManager::on_reject, with the reason CancelRejected
unfoldable pub on_cancel_reject : OrderManager → OrderIdRaw → OrderManager
on_cancel_reject om id =
    if contains id om.expected_false_cancel_rejects
    then emit (Effect.health_reject (venue_of id) true)
        (record om { expected_false_cancel_rejects = remove id om.expected_false_cancel_rejects })
    else when_ok (validate om id (bare EventKind.reject)) (apply_cancel_reject id om)
        (drop_event om)

abbrev pub reject_order : Order → ℤ → Order
reject_order o ts = record o { status = OrderStatus.rejected; ts = record o.ts { terminal = ts } }

-- The order is rejected, health is told and the event is published.
abbrev pub tell_reject : OrderIdRaw → RejectReason → ℤ → OrderManager → OrderManager
tell_reject id reason ts om =
    let o = reject_order (order_ref om id) ts in
    let om' = put_order om id o in
    publish (event_of OrderEventKind.rejected id o (pos 0) (pos 0) reason ts) (
      emit (Effect.health_reject (venue_of id) false)
        (record om' { reject_count = bump om.reject_count }))

unfoldable pub apply_reject : OrderIdRaw → RejectReason → ℤ → OrderManager → OrderManager
unfolding retire
apply_reject id reason ts om =
    let old = order_ref om id in
    retire id old.instrument (remaining old) old.side (tell_reject id reason ts om)

-- OrderManager::on_reject, with any other reason
unfoldable pub on_place_reject : OrderManager → OrderIdRaw → RejectReason → ℤ → OrderManager
unfolding apply_reject
on_place_reject om id reason ts =
    when_ok (validate om id (bare EventKind.reject)) (apply_reject id reason ts om) (drop_event om)

-- OrderManager::on_reject
unfoldable pub on_reject : OrderManager → OrderIdRaw → RejectReason → ℤ → OrderManager
unfolding on_cancel_reject on_place_reject
on_reject om id RejectReason.cancel_rejected ts = on_cancel_reject om id
on_reject om id reason ts = on_place_reject om id reason ts

abbrev pub cancel_order_at : Order → ℤ → Order
cancel_order_at o ts = record o {
  pending_cancel = false;
  status = OrderStatus.cancelled;
  ts = record o.ts { terminal = ts };
}

-- The order is cancelled and the event is published.
abbrev pub tell_cancel : OrderIdRaw → ℤ → OrderEventKind → Bool → OrderManager → OrderManager
tell_cancel id ts kind unsolicited om =
    let o = cancel_order_at (order_ref om id) ts in
    let om' = put_order om id o in
    publish (event_of kind id o (pos 0) (pos 0) RejectReason.unknown ts) (record om' {
      unsolicited_cancel_count =
          if unsolicited then bump om.unsolicited_cancel_count else om.unsolicited_cancel_count;
    })

unfoldable pub apply_cancel : OrderIdRaw → ℤ → OrderEventKind → Bool → OrderManager → OrderManager
unfolding retire
apply_cancel id ts kind unsolicited om =
    let old = order_ref om id in
    retire id old.instrument (remaining old) old.side (tell_cancel id ts kind unsolicited om)

-- OrderManager::finish_cancel
unfoldable pub finish_cancel :
    OrderManager → OrderIdRaw → ℤ → EventKind → OrderEventKind → Bool → OrderManager
unfolding apply_cancel
finish_cancel om id ts kind told unsolicited =
    when_ok (validate om id (bare kind)) (apply_cancel id ts told unsolicited om) (drop_event om)

-- OrderManager::on_cancel_ack
unfoldable pub on_cancel_ack : OrderManager → OrderIdRaw → ℤ → OrderManager
unfolding finish_cancel
on_cancel_ack om id ts = finish_cancel om id ts EventKind.cancel_ack OrderEventKind.cancelled false

-- OrderManager::on_unsolicited_cancel
unfoldable pub on_unsolicited_cancel : OrderManager → OrderIdRaw → ℤ → OrderManager
unfolding finish_cancel
on_unsolicited_cancel om id ts =
    finish_cancel om id ts EventKind.unsolicited_cancel OrderEventKind.unsolicited_cancel true
