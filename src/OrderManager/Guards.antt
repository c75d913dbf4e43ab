-- ===== src/OrderManager/Guards.antt =====
-- The helpers that the operations share (src/OrderManager.cpp): validation, publication, the kill
-- switch and the retirement of a terminal order.
use delta_assignment.Common.{
  ℕ, Bool, true, false, ◌||◌, List, [], ◌∷◌, ◌++◌, Option, none, some, length, contains, remove,
  ltb, if◌then◌else◌,
}
use delta_assignment.Common.Int.{ℤ, pos, leb_ℤ, ltb_ℤ}
use delta_assignment.Common.Dict.{lookup, erase}
use delta_assignment.OrderId.{OrderIdRaw}
use delta_assignment.Order.{Side, is_terminal, remaining, signed_qty}
use delta_assignment.Pool.{is_current, release}
use delta_assignment.OrderManager.Types.{
  EventKind, EventContext, ValidationResult, OrderEvent, Effect,
}
use delta_assignment.OrderManager.State.{
  OrderManager, KillReason, slot_of, order_ref, position, pending_quantity, sub_pending, emit,
}

-- `tit != trade_ids_.end() && tit->second.contains(trade)`
abbrev pub seen_in : Option (List ℕ) → ℕ → Bool
seen_in none trade = false
seen_in (some seen) trade = contains trade seen

-- The test (3) of OrderManager::validate.
abbrev pub has_trade : OrderManager → OrderIdRaw → ℕ → Bool
has_trade om id trade = seen_in (lookup id om.trade_ids) trade

-- The checks of a fill, (3) to (5) of OrderManager::validate.
unfoldable pub validate_fill : OrderManager → OrderIdRaw → EventContext → ValidationResult
validate_fill om id ev =
    if has_trade om id ev.trade_id
    then ValidationResult.duplicate_trade
    else if leb_ℤ ev.qty (pos 0) || leb_ℤ ev.price (pos 0)
    then ValidationResult.field_mismatch
    else if ltb_ℤ (remaining (order_ref om id)) ev.qty
    then ValidationResult.field_mismatch
    else ValidationResult.ok

abbrev pub validate_kind : EventKind → OrderManager → OrderIdRaw → EventContext → ValidationResult
validate_kind EventKind.fill om id ev = validate_fill om id ev
validate_kind _ om id ev = ValidationResult.ok

-- OrderManager::validate
unfoldable pub validate : OrderManager → OrderIdRaw → EventContext → ValidationResult
unfolding validate_fill
validate om id ev =
    if is_current om.pool id
    then (if is_terminal (order_ref om id).status
        then ValidationResult.terminal_state
        else validate_kind ev.kind om id ev)
    else ValidationResult.unknown_order

-- {kind, 0, 0, 0}
abbrev pub bare : EventKind → EventContext
bare k = record { kind = k; trade_id = 0; qty = pos 0; price = pos 0 }

-- OrderManager::publish
abbrev pub publish : OrderEvent → OrderManager → OrderManager
publish e om =
    emit (Effect.published e (position om e.instrument) (pending_quantity om e.instrument)) om

-- OrderManager::trip_kill_switch
abbrev pub trip_kill_switch : KillReason → OrderManager → OrderManager
trip_kill_switch reason om =
    if om.killed then om else record om { killed = true; kill_reason = some reason }

-- The first half of OrderManager::retire: the pending quantity is unwound, and the order leaves the
-- live index for the back of the grace FIFO.
abbrev pub unindex : OrderIdRaw → ℕ → ℤ → Side → OrderManager → OrderManager
unindex id inst remaining_to_cancel side om =
    let om' =
      if ltb_ℤ (pos 0) remaining_to_cancel
      then sub_pending om inst (signed_qty side remaining_to_cancel)
      else om in
    record om' {
      live = remove id om'.live;
      trade_ids = erase id om'.trade_ids;
      retired_fifo = om'.retired_fifo ++ id ∷ [];
    }

-- pool_.release, which is only called on a slot in use
abbrev pub free_slot : OrderIdRaw → OrderManager → OrderManager
free_slot old om = elim (release om.pool (slot_of old)) [
  | none ↦ record om { stopped = true }
  | some p ↦ record om { pool = p }
]

-- What happens to the oldest entry of the FIFO when it is longer than the grace window.
abbrev pub expire : List OrderIdRaw → OrderManager → OrderManager
expire [] om = om
expire (old ∷ rest) om =
    let om' = record om {
      retired_fifo = rest;
      expected_false_cancel_rejects = remove old om.expected_false_cancel_rejects;
    } in
    if is_current om.pool old then free_slot old om' else om'

-- The second half of OrderManager::retire.
unfoldable pub trim_fifo : OrderManager → OrderManager
trim_fifo om =
    if ltb om.retired_grace (length om.retired_fifo) then expire om.retired_fifo om else om

-- OrderManager::retire
unfoldable pub retire : OrderIdRaw → ℕ → ℤ → Side → OrderManager → OrderManager
unfolding trim_fifo
retire id inst remaining_to_cancel side om = trim_fifo (unindex id inst remaining_to_cancel side om)
