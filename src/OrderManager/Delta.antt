-- ===== src/OrderManager/Delta.antt =====
-- Fills and the execution delta (OrderManager::execution_delta of include/oms/OrderManager.h against
-- OrderManager::on_fill of src/OrderManager.cpp), and fills that validation refuses.
use delta_assignment.Common.{
  bump, ℕ, ◌≡◌, ◌≢◌, refl, sym, ap, ◌∙◌, inl, inr, Bool-cases, ◌==◌, ==_iff, arith,
}
use delta_assignment.Common.Int.{ℤ, pos, ◌+ℤ◌, ◌-ℤ◌, int_laws}
use delta_assignment.Common.Dict.{find_or-insert}
use delta_assignment.OrderId.{OrderIdRaw}
use delta_assignment.Order.{signed_qty}
use delta_assignment.Position.{flat, apply}
use delta_assignment.OrderManager.Types.{ValidationResult}
use delta_assignment.OrderManager.State.{
  OrderManager, order_ref, position, pending_quantity, execution_delta,
}
use delta_assignment.OrderManager.Guards.{validate}
use delta_assignment.OrderManager.Events.{
  on_fill, fill_context, when_ok, refuse_fill, drop_event, apply_fill,
}
use delta_assignment.OrderManager.FillLaws.{on_fill-FillIsBooked}

moves_over :
    (target net pending signed : ℤ)
    → target -ℤ ((net +ℤ signed) +ℤ (pending -ℤ signed)) ≡ target -ℤ (net +ℤ pending)
moves_over target net pending signed = omega int_laws

-- A validated fill leaves the execution delta of every instrument as it was: what the position
-- gains, the pending quantity loses.
pub execution_delta-on_fill :
    (om : OrderManager) (id : OrderIdRaw) (qty price : ℤ) (trade : ℕ) (ts : ℤ) (inst : ℕ)
    (target : ℤ)
    → validate om id (fill_context trade qty price) ≡ ValidationResult.ok
    → execution_delta (on_fill om id qty price trade ts) inst target
      ≡ execution_delta om inst target
unfolding execution_delta
execution_delta-on_fill om id qty price trade ts inst target h =
    let o = order_ref om id in
    let signed = signed_qty o.side qty in
    let moved = apply (position om o.instrument) signed price ts (pos 0) in
    let left = pending_quantity om o.instrument -ℤ signed in
    let (p, q, _) = on_fill-FillIsBooked om id qty price trade ts h in
    rw
      (
        p,
        q,
        find_or-insert flat o.instrument inst moved om.positions,
        find_or-insert (pos 0) o.instrument inst left om.pending_signed,
      )
      (elim (Bool-cases (inst == o.instrument)) [
        | inl e ↦ rw e (
            moves_over target (position om o.instrument).net (pending_quantity om o.instrument)
              signed
            ∙ ap (λ (i : ℕ). target -ℤ ((position om i).net +ℤ pending_quantity om i))
                (sym ((==_iff inst o.instrument).0 e)))
        | inr e ↦ rw e refl
      ])

-- Orders, positions, pending quantities, live index, trade ids and neighbours are as they were.
abbrev pub IsUntouched : OrderManager → OrderManager → Type 0
IsUntouched om om' =
    (om'.pool ≡ om.pool)
    × (om'.positions ≡ om.positions)
    × (om'.pending_signed ≡ om.pending_signed)
    × (om'.live ≡ om.live)
    × (om'.trade_ids ≡ om.trade_ids)
    × (om'.trace ≡ om.trace)

-- What a refused fill may change: the counter of dropped events, and for an unknown order the counter
-- of unknown fills, the request to reconcile and the kill switch.
refuse_fill-inert :
    (vr : ValidationResult) (id : OrderIdRaw) (om : OrderManager)
    → IsUntouched om (refuse_fill vr id om)
      × ((refuse_fill vr id om).oos_dropped_count ≡ om.oos_dropped_count)
refuse_fill-inert ValidationResult.unknown_order id om = ground arith
refuse_fill-inert ValidationResult.ok id om = ((refl, refl, refl, refl, refl, refl), refl)
refuse_fill-inert ValidationResult.terminal_state id om =
    ((refl, refl, refl, refl, refl, refl), refl)
refuse_fill-inert ValidationResult.duplicate_trade id om =
    ((refl, refl, refl, refl, refl, refl), refl)
refuse_fill-inert ValidationResult.stale_cumulative id om =
    ((refl, refl, refl, refl, refl, refl), refl)
refuse_fill-inert ValidationResult.field_mismatch id om =
    ((refl, refl, refl, refl, refl, refl), refl)

when_ok-refused :
    (vr : ValidationResult) (a b : OrderManager) → vr ≢ ValidationResult.ok → when_ok vr a b ≡ b
when_ok-refused ValidationResult.ok a b h = absurd (h refl)
when_ok-refused ValidationResult.unknown_order a b h = refl
when_ok-refused ValidationResult.terminal_state a b h = refl
when_ok-refused ValidationResult.duplicate_trade a b h = refl
when_ok-refused ValidationResult.stale_cumulative a b h = refl
when_ok-refused ValidationResult.field_mismatch a b h = refl

-- A fill that does not validate leaves orders, positions, pending quantities, live index, trade ids
-- and neighbours alone, and is counted as dropped.
pub on_fill-refused :
    (om : OrderManager) (id : OrderIdRaw) (qty price : ℤ) (trade : ℕ) (ts : ℤ)
    → validate om id (fill_context trade qty price) ≢ ValidationResult.ok
    → IsUntouched om (on_fill om id qty price trade ts)
      × ((on_fill om id qty price trade ts).oos_dropped_count ≡ bump om.oos_dropped_count)
unfolding on_fill
on_fill-refused om id qty price trade ts h =
    let vr = validate om id (fill_context trade qty price) in
    rw
      (when_ok-refused vr (apply_fill id qty price trade ts om) (refuse_fill vr id (drop_event om))
        h)
      (refuse_fill-inert vr id (drop_event om))
