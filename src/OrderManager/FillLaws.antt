-- ===== src/OrderManager/FillLaws.antt =====
-- What one fill does (OrderManager::on_fill of src/OrderManager.cpp): the ledgers that it moves, the
-- order of the update and the publication, and what a refused fill leaves alone.
use delta_assignment.Common.{
  ℕ, ◌≡◌, refl, ◌∙◌, Bool, true, false, List, [], ◌∷◌, some, length, ltb, remove, inl, inr,
  Bool-cases, Option-cases, if◌then◌else◌, arith,
}
use delta_assignment.Common.Int.{ℤ, pos, ◌-ℤ◌}
use delta_assignment.Common.Dict.{insert, find_or-insert_self}
use delta_assignment.OrderId.{OrderIdRaw}
use delta_assignment.Order.{signed_qty}
use delta_assignment.Position.{flat, apply}
use delta_assignment.Pool.{OrderPool, is_current, release}
use delta_assignment.OrderManager.Types.{ValidationResult, Effect, OrderEventKind, RejectReason}
use delta_assignment.OrderManager.State.{
  OrderManager, slot_of, order_ref, venue_of, position, pending_quantity,
}
use delta_assignment.OrderManager.Guards.{validate, retire, trim_fifo, expire, free_slot, unindex}
use delta_assignment.OrderManager.Events.{
  on_fill, apply_fill, tell_fill, book_fill, finish_fill, fill_order, is_final, fill_context,
  event_of,
}

-- The ledgers that a retirement leaves alone.
abbrev pub SameLedgers : OrderManager → OrderManager → Type 0
SameLedgers om om' =
    (om'.positions ≡ om.positions)
    × (om'.pending_signed ≡ om.pending_signed)
    × (om'.trace ≡ om.trace)
    × (om'.live ≡ om.live)
    × (om'.pool.slots ≡ om.pool.slots)

pub release-slots : (p q : OrderPool) (s : ℕ) → release p s ≡ some q → q.slots ≡ p.slots
unfolding release
release-slots p q s e = ground arith

free_slot-ledgers : (gone : OrderIdRaw) (om : OrderManager) → SameLedgers om (free_slot gone om)
free_slot-ledgers gone om = elim (Option-cases (release om.pool (slot_of gone))) [
  | inl e ↦ rw (e, free_slot) (refl, refl, refl, refl, refl)
  | inr (q, e) ↦
      rw (e, free_slot) (refl, refl, refl, refl, release-slots om.pool q (slot_of gone) e)
]

expire-ledgers : (fs : List OrderIdRaw) (om : OrderManager) → SameLedgers om (expire fs om)
expire-ledgers [] om = (refl, refl, refl, refl, refl)
expire-ledgers (gone ∷ rest) om = elim (Bool-cases (is_current om.pool gone)) [
  | inl e ↦ rw e (
      free_slot-ledgers gone (record om {
        retired_fifo = rest;
        expected_false_cancel_rejects = remove gone om.expected_false_cancel_rejects;
      }))
  | inr e ↦ rw e (refl, refl, refl, refl, refl)
]

pub trim_fifo-ledgers : (om : OrderManager) → SameLedgers om (trim_fifo om)
unfolding trim_fifo
trim_fifo-ledgers om = elim (Bool-cases (ltb om.retired_grace (length om.retired_fifo))) [
  | inl e ↦ rw e (expire-ledgers om.retired_fifo om)
  | inr e ↦ rw e (refl, refl, refl, refl, refl)
]

-- The tail of a completing fill only moves the order out of the live index.
pub finish_fill-ledgers :
    (id : OrderIdRaw) (om : OrderManager)
    → let om' = finish_fill id om in
      (om'.positions ≡ om.positions)
      × (om'.pending_signed ≡ om.pending_signed)
      × (om'.trace ≡ om.trace)
      × (om'.live ≡ remove id om.live)
      × (om'.pool.slots ≡ om.pool.slots)
unfolding finish_fill retire
finish_fill-ledgers id om = elim (Bool-cases (order_ref om id).pending_cancel) [
  | inl e ↦ rw e (trim_fifo-ledgers _)
  | inr e ↦ rw e (
      trim_fifo-ledgers (unindex id (order_ref om id).instrument (pos 0) (order_ref om id).side om))
]

-- What a computed order books: the fill of the order, its position and its pending quantity.
apply_fill-ledgers :
    (b : Bool) (om told : OrderManager) (id : OrderIdRaw)
    → let om' = if b then finish_fill id told else told in
      (om'.positions ≡ told.positions)
      × (om'.pending_signed ≡ told.pending_signed)
      × (om'.trace ≡ told.trace)
      × (om'.pool.slots ≡ told.pool.slots)
apply_fill-ledgers true om told id =
    let (p, q, t, _, s) = finish_fill-ledgers id told in (p, q, t, s)
apply_fill-ledgers false om told id = (refl, refl, refl, refl)

-- What the subscribers of a fill read in the ledgers.
book_fill-position :
    (om : OrderManager) (id : OrderIdRaw) (qty price : ℤ) (trade : ℕ) (ts : ℤ)
    → let o = order_ref om id in
      position (book_fill id qty price trade ts om) o.instrument
      ≡ apply (position om o.instrument) (signed_qty o.side qty) price ts (pos 0)
unfolding book_fill
book_fill-position om id qty price trade ts =
    find_or-insert_self flat (order_ref om id).instrument
      (apply (position om (order_ref om id).instrument) (signed_qty (order_ref om id).side qty)
        price ts (pos 0))
      om.positions

book_fill-pending :
    (om : OrderManager) (id : OrderIdRaw) (qty price : ℤ) (trade : ℕ) (ts : ℤ)
    → let o = order_ref om id in
      pending_quantity (book_fill id qty price trade ts om) o.instrument
      ≡ pending_quantity om o.instrument -ℤ signed_qty o.side qty
unfolding book_fill
book_fill-pending om id qty price trade ts =
    find_or-insert_self (pos 0) (order_ref om id).instrument
      (pending_quantity om (order_ref om id).instrument -ℤ signed_qty (order_ref om id).side qty)
      om.pending_signed

tell_fill-trace :
    (om : OrderManager) (id : OrderIdRaw) (qty price : ℤ) (trade : ℕ) (ts : ℤ)
    → let o = order_ref om id in
      let signed = signed_qty o.side qty in
      (tell_fill id qty price trade ts om).trace
      ≡ Effect.published
          (event_of
            (if is_final o qty then OrderEventKind.fill else OrderEventKind.partial_fill)
            id
            (fill_order o qty price ts)
            qty
            price
            RejectReason.unknown
            ts)
          (apply (position om o.instrument) signed price ts (pos 0))
          (pending_quantity om o.instrument -ℤ signed)
        ∷ Effect.health_fill (venue_of id)
        ∷ om.trace
unfolding tell_fill
tell_fill-trace om id qty price trade ts =
    rw (book_fill-position om id qty price trade ts, book_fill-pending om id qty price trade ts)
      refl

-- The ledgers and the trace after a fill of an order was applied.
abbrev pub FillIsBooked : OrderManager → OrderIdRaw → ℤ → ℤ → ℤ → OrderManager → Type 0
FillIsBooked om id qty price ts om' =
    let o = order_ref om id in
    let signed = signed_qty o.side qty in
    let moved = apply (position om o.instrument) signed price ts (pos 0) in
    let left = pending_quantity om o.instrument -ℤ signed in
    (om'.positions ≡ insert o.instrument moved om.positions)
    × (om'.pending_signed ≡ insert o.instrument left om.pending_signed)
    × (om'.trace
        ≡ Effect.published
            (event_of (if is_final o qty then OrderEventKind.fill else OrderEventKind.partial_fill)
              id (fill_order o qty price ts) qty price RejectReason.unknown ts)
            moved left
          ∷ Effect.health_fill (venue_of id)
          ∷ om.trace)

-- A validated fill moves its signed quantity from the pending quantity of the instrument to its
-- position and does nothing else to the two ledgers; health is told once, then one event is
-- published, and its subscribers find both ledgers updated.
pub on_fill-FillIsBooked :
    (om : OrderManager) (id : OrderIdRaw) (qty price : ℤ) (trade : ℕ) (ts : ℤ)
    → validate om id (fill_context trade qty price) ≡ ValidationResult.ok
    → FillIsBooked om id qty price ts (on_fill om id qty price trade ts)
unfolding on_fill apply_fill tell_fill book_fill
on_fill-FillIsBooked om id qty price trade ts h =
    let told = tell_fill id qty price trade ts om in
    let (p, q, t, _) = apply_fill-ledgers (is_final (order_ref om id) qty) om told id in
    rw h (p, q, t ∙ tell_fill-trace om id qty price trade ts)
