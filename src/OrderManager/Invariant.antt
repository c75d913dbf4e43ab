-- ===== src/OrderManager/Invariant.antt =====
-- Every operation of the order manager (src/OrderManager.cpp) keeps its invariant.
use delta_assignment.Common.{
  ℕ, ◌≡◌, refl, ◌∙◌, Bool, true, false, String, [], ◌∷◌, ◌++◌, contains, remove, inl, inr,
  Bool-cases, if◌then◌else◌, arith,
}
use delta_assignment.Common.Int.{ℤ, pos, ◌≤ℤ◌, ◌<ℤ◌}
use delta_assignment.OrderId.{OrderIdRaw}
use delta_assignment.Order.{Order, OrderStatus, is_terminal, remaining}
use delta_assignment.Pool.{is_current, set_order}
use delta_assignment.OrderManager.Types.{
  EventKind, EventContext, ValidationResult, OrderEventKind, RejectReason,
}
use delta_assignment.OrderManager.State.{OrderManager, slot_of, order_ref, put_order}
use delta_assignment.OrderManager.Guards.{validate, has_trade}
use delta_assignment.OrderManager.Events.{
  on_confirm, apply_confirm, on_reject, on_cancel_reject, on_place_reject, apply_reject,
  apply_cancel, finish_cancel, confirm_order, confirmed_status, drop_event, reject_order,
  cancel_order_at, revive_order, apply_cancel_reject, tell_cancel, tell_reject, when_ok,
  fill_context,
}
use delta_assignment.OrderManager.Consistency.{
  Books, IsConsistent, current-slot_live, live-IsWorking,
}
use delta_assignment.OrderManager.Transitions.{Books-update, Books-retire}
use delta_assignment.OrderManager.Retire.{IsSound, retire-IsSound, unwound, unwound-change}

-- An event names the order in its slot by the order's own id.
abbrev pub IsGenuine : OrderManager → OrderIdRaw → Type 0
IsGenuine om id = is_current om.pool id ≡ true → (order_ref om id).internal_id ≡ id

-- What validation has checked of any event.
pub validate-ok :
    (om : OrderManager) (id : OrderIdRaw) (ev : EventContext)
    → validate om id ev ≡ ValidationResult.ok
    → (is_current om.pool id ≡ true) × (is_terminal (order_ref om id).status ≡ false)
unfolding validate
validate-ok om id ev h = elim (Bool-cases (is_current om.pool id)) [
  | inl c ↦ elim (Bool-cases (is_terminal (order_ref om id).status)) [
    | inl t ↦ absurd (ground arith)
    | inr t ↦ (c, t)
  ]
  | inr c ↦ absurd (ground arith)
]

-- A current order that is not terminal is in the live index.
pub working-live :
    (om : OrderManager) (id : OrderIdRaw)
    → IsConsistent om
    → IsGenuine om id
    → is_current om.pool id ≡ true
    → is_terminal (order_ref om id).status ≡ false
    → contains id om.live ≡ true
working-live om id b g c t =
    let known = b.complete (slot_of id) (current-slot_live om.pool id c) t in rw (g c) at known.0

-- A validated event is about a live order.
pub validated-live :
    (om : OrderManager) (id : OrderIdRaw) (ev : EventContext)
    → IsConsistent om
    → IsGenuine om id
    → validate om id ev ≡ ValidationResult.ok
    → contains id om.live ≡ true
validated-live om id ev b g h = let (c, t) = validate-ok om id ev h in working-live om id b g c t

-- A guarded handler is sound if what it does to a validated event is.
pub when_ok-IsSound :
    (om accepted refused : OrderManager) (vr : ValidationResult)
    → (vr ≡ ValidationResult.ok → IsSound om accepted)
    → IsSound om refused
    → IsSound om (when_ok vr accepted refused)
when_ok-IsSound om accepted refused ValidationResult.ok a r = a refl
when_ok-IsSound om accepted refused _ a r = r

confirmed_works :
    (s : OrderStatus) → is_terminal s ≡ false → is_terminal (confirmed_status s) ≡ false
confirmed_works OrderStatus.new h = refl
confirmed_works s h = h

revived_works : (o : Order) → is_terminal (revive_order o).status ≡ false
revived_works o = ground arith

pub choose-IsSound :
    (om accepted refused : OrderManager) (t : Bool)
    → (t ≡ true → IsSound om accepted)
    → (t ≡ false → IsSound om refused)
    → IsSound om (if t then accepted else refused)
choose-IsSound om accepted refused true a r = a refl
choose-IsSound om accepted refused false a r = r refl

-- A handler that changes marks of a live order keeps the invariant.
pub remark-IsConsistent :
    (om : OrderManager) (id : OrderIdRaw) (o : Order)
    → IsConsistent om
    → contains id om.live ≡ true
    → o.internal_id ≡ (order_ref om id).internal_id
    → o.instrument ≡ (order_ref om id).instrument
    → o.side ≡ (order_ref om id).side
    → o.size ≡ (order_ref om id).size
    → o.filled_size ≡ (order_ref om id).filled_size
    → is_terminal o.status ≡ false
    → IsConsistent (put_order om id o)
remark-IsConsistent om id o b here i1 i2 i3 i4 i5 t =
    let works = (live-IsWorking om.pool id om.live b.live_working here).1 in
    Books-update om.pool om.live om.retired_fifo om.pending_signed b id here o om.pending_signed
      (i1 ∙ works.0, t, rw (i4, i5) works.2) (λ inst. rw (i2, i3, i4, i5) refl)

-- On a consistent manager a confirmation under a genuine id (one that, if its slot and generation are
-- current, is the id of the order there) keeps the invariant and fails no assertion.
pub on_confirm-IsSound :
    (om : OrderManager) (id : OrderIdRaw) (exch_id : String) (ts : ℤ)
    → IsConsistent om
    → IsGenuine om id
    → IsSound om (on_confirm om id exch_id ts)
unfolding on_confirm
on_confirm-IsSound om id exch_id ts b g =
    when_ok-IsSound om (apply_confirm id exch_id ts om) (drop_event om) _
      (λ h.
        let here = validated-live om id _ b g h in
        let t = (validate-ok om id _ h).1 in
        (
          remark-IsConsistent om id (confirm_order (order_ref om id) exch_id ts) b here refl refl
              refl refl refl (confirmed_works (order_ref om id).status t),
          refl,
        ))
      (b, refl)

-- The books after a live order ended with what it had left.
pub ended-Books :
    (om : OrderManager) (id : OrderIdRaw) (o : Order)
    → IsConsistent om
    → contains id om.live ≡ true
    → is_terminal o.status ≡ true
    → let old = order_ref om id in
      Books
        (set_order om.pool (slot_of id) o)
        (remove id om.live)
        (om.retired_fifo ++ id ∷ [])
        (unwound old.instrument (remaining old) old.side om.pending_signed)
ended-Books om id o b here t =
    let works = (live-IsWorking om.pool id om.live b.live_working here).1 in
    let old = order_ref om id in
    Books-retire om.pool om.live om.retired_fifo om.pending_signed b id here o
      (unwound old.instrument (remaining old) old.side om.pending_signed) t
      (λ inst. unwound-change inst old om.pending_signed works.2)

-- On a consistent manager the shared body of cancel-ack and unsolicited cancel, under a genuine id, keeps
-- the invariant and fails no assertion, whether the event validates or is dropped.
pub finish_cancel-IsSound :
    (om : OrderManager) (id : OrderIdRaw) (ts : ℤ) (kind : EventKind) (told : OrderEventKind)
    (unsolicited : Bool)
    → IsConsistent om
    → IsGenuine om id
    → IsSound om (finish_cancel om id ts kind told unsolicited)
unfolding finish_cancel apply_cancel
finish_cancel-IsSound om id ts kind told unsolicited b g =
    let old = order_ref om id in
    when_ok-IsSound om (apply_cancel id ts told unsolicited om) (drop_event om) _
      (λ h.
        retire-IsSound (tell_cancel id ts told unsolicited om) id old.instrument (remaining old)
          old.side
          (ended-Books om id (cancel_order_at old ts) b (validated-live om id _ b g h) refl))
      (b, refl)

place_reject-IsSound :
    (om : OrderManager) (id : OrderIdRaw) (reason : RejectReason) (ts : ℤ)
    → IsConsistent om
    → IsGenuine om id
    → IsSound om (on_place_reject om id reason ts)
unfolding on_place_reject apply_reject
place_reject-IsSound om id reason ts b g =
    let old = order_ref om id in
    when_ok-IsSound om (apply_reject id reason ts om) (drop_event om) _
      (λ h.
        retire-IsSound (tell_reject id reason ts om) id old.instrument (remaining old) old.side
          (ended-Books om id (reject_order old ts) b (validated-live om id _ b g h) refl))
      (b, refl)

cancel_reject-IsSound :
    (om : OrderManager) (id : OrderIdRaw)
    → IsConsistent om
    → IsGenuine om id
    → IsSound om (on_cancel_reject om id)
unfolding on_cancel_reject
cancel_reject-IsSound om id b g = elim (Bool-cases (contains id om.expected_false_cancel_rejects)) [
  | inl e ↦ rw e (b, refl)
  | inr e ↦ rw e (
      when_ok-IsSound om (apply_cancel_reject id om) (drop_event om) _
        (λ h. (
          remark-IsConsistent om id (revive_order (order_ref om id)) b
              (validated-live om id _ b g h) refl refl refl refl refl
              (revived_works (order_ref om id)),
          refl,
        ))
        (b, refl))
]

-- On a consistent manager a reject under a genuine id keeps the invariant and fails no assertion, whatever
-- its reason.
pub on_reject-IsSound :
    (om : OrderManager) (id : OrderIdRaw) (reason : RejectReason) (ts : ℤ)
    → IsConsistent om
    → IsGenuine om id
    → IsSound om (on_reject om id reason ts)
unfolding on_reject
on_reject-IsSound om id RejectReason.cancel_rejected ts b g = cancel_reject-IsSound om id b g
on_reject-IsSound om id reason ts b g = place_reject-IsSound om id reason ts b g

-- What validation has checked of a fill.
pub validate-fill_ok :
    (om : OrderManager) (id : OrderIdRaw) (trade : ℕ) (qty price : ℤ)
    → validate om id (fill_context trade qty price) ≡ ValidationResult.ok
    → (pos 0 <ℤ qty)
      × (pos 0 <ℤ price)
      × (qty ≤ℤ remaining (order_ref om id))
      × (has_trade om id trade ≡ false)
unfolding validate
validate-fill_ok om id trade qty price h = ground arith
