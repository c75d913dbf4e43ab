-- ===== src/OrderManager/Fill.antt =====
-- A fill (OrderManager::on_fill of src/OrderManager.cpp) keeps the invariant of the order manager.
use delta_assignment.Common.{
  bump, ℕ, ◌≡◌, refl, sym, ap, ◌∙◌, Bool, true, false, [], ◌∷◌, ◌++◌, contains, remove, inl, inr,
  Bool-cases, ◌==◌, if◌then◌else◌,
}
use delta_assignment.Common.Int.{ℤ, pos, ◌+ℤ◌, ◌-ℤ◌, ◌≤ℤ◌, eqb_ℤ→eq, parts_of_eq, +ℤ-zero, int_laws}
use delta_assignment.Common.Dict.{Dict, find_or}
use delta_assignment.OrderId.{OrderIdRaw}
use delta_assignment.Order.{Order, Side, signed_qty, remaining}
use delta_assignment.OrderManager.Types.{ValidationResult}
use delta_assignment.OrderManager.State.{OrderManager, KillReason, order_ref}
use delta_assignment.OrderManager.Guards.{validate, trip_kill_switch}
use delta_assignment.OrderManager.Events.{
  on_fill, apply_fill, book_fill, tell_fill, finish_fill, fill_order, is_final, drop_event,
  refuse_fill, fill_context,
}
use delta_assignment.OrderManager.Consistency.{Books, IsConsistent, contribution, live-IsWorking}
use delta_assignment.OrderManager.Transitions.{Books-update, Books-retire, lower}
use delta_assignment.OrderManager.Retire.{IsSound, retire-IsSound, lower-change, contribution-zero}
use delta_assignment.OrderManager.Invariant.{
  IsGenuine, validated-live, validate-fill_ok, when_ok-IsSound, choose-IsSound,
}

-- What an order has left falls by the fill, with its sign.
signed_remaining :
    (s : Side) (size filled qty : ℤ)
    → signed_qty s (size -ℤ (filled +ℤ qty)) +ℤ signed_qty s qty ≡ signed_qty s (size -ℤ filled)
signed_remaining Side.buy size filled qty = omega int_laws
signed_remaining Side.sell size filled qty = omega int_laws

-- If `a` and `p` differ by `s`, and `c'` and `c` do, the sums agree.
exchange : (s a c c' p : ℤ) → c' +ℤ s ≡ c → a +ℤ s ≡ p → a +ℤ c ≡ p +ℤ c'
exchange s a c c' p h e = omega (int_laws, parts_of_eq _ _ h, parts_of_eq _ _ e)

exchange_if :
    (t : Bool) (s a c c' p : ℤ)
    → c' +ℤ s ≡ c
    → a +ℤ (if t then s else pos 0) ≡ p
    → a +ℤ (if t then c else pos 0) ≡ p +ℤ (if t then c' else pos 0)
exchange_if true s a c c' p h e = exchange s a c c' p h e
exchange_if false s a c c' p h e = ap (λ (x : ℤ). x +ℤ pos 0) (sym (+ℤ-zero a) ∙ e)

-- The pending quantity and the order's share fall together.
fill-change :
    (inst : ℕ) (o : Order) (qty price ts : ℤ) (pending : Dict ℤ)
    → find_or (pos 0) inst (lower o.instrument (signed_qty o.side qty) pending)
        +ℤ contribution inst o
      ≡ find_or (pos 0) inst pending +ℤ contribution inst (fill_order o qty price ts)
fill-change inst o qty price ts pending =
    exchange_if (o.instrument == inst) (signed_qty o.side qty) _ (signed_qty o.side (remaining o))
      (signed_qty o.side (remaining (fill_order o qty price ts))) (find_or (pos 0) inst pending)
      (signed_remaining o.side o.size o.filled_size qty)
      (lower-change o.instrument inst (signed_qty o.side qty) pending)

-- Part of an order is filled.
partial-IsConsistent :
    (om : OrderManager) (id : OrderIdRaw) (qty price : ℤ) (trade : ℕ) (ts : ℤ)
    → IsConsistent om
    → contains id om.live ≡ true
    → qty ≤ℤ remaining (order_ref om id)
    → is_final (order_ref om id) qty ≡ false
    → IsConsistent (book_fill id qty price trade ts om)
unfolding book_fill
partial-IsConsistent om id qty price trade ts b here fits part =
    let old = order_ref om id in
    let works = (live-IsWorking om.pool id om.live b.live_working here).1 in
    Books-update om.pool om.live om.retired_fifo om.pending_signed b id here
      (fill_order old qty price ts)
      (lower old.instrument (signed_qty old.side qty) om.pending_signed)
      (works.0, rw part refl, omega int_laws)
      (λ inst. fill-change inst old qty price ts om.pending_signed)

finish_fill-IsSound :
    (om : OrderManager) (id : OrderIdRaw)
    → Books om.pool (remove id om.live) (om.retired_fifo ++ id ∷ []) om.pending_signed
    → IsSound om (finish_fill id om)
unfolding finish_fill
finish_fill-IsSound om id b =
    let o = order_ref om id in
    elim (Bool-cases o.pending_cancel) [
      | inl e ↦ rw e (retire-IsSound _ id o.instrument (pos 0) o.side b)
      | inr e ↦ rw e (retire-IsSound om id o.instrument (pos 0) o.side b)
    ]

nothing_remains :
    (o : Order) (qty : ℤ) → is_final o qty ≡ true → o.size -ℤ (o.filled_size +ℤ qty) ≡ pos 0
nothing_remains o qty h =
    omega (int_laws, parts_of_eq _ _ (eqb_ℤ→eq (o.filled_size +ℤ qty) o.size h))

-- The rest of an order is filled.
final-Books :
    (om : OrderManager) (id : OrderIdRaw) (qty price : ℤ) (trade : ℕ) (ts : ℤ)
    → IsConsistent om
    → contains id om.live ≡ true
    → is_final (order_ref om id) qty ≡ true
    → let om' = book_fill id qty price trade ts om in
      Books om'.pool (remove id om'.live) (om'.retired_fifo ++ id ∷ []) om'.pending_signed
unfolding book_fill
final-Books om id qty price trade ts b here last =
    let old = order_ref om id in
    Books-retire om.pool om.live om.retired_fifo om.pending_signed b id here
      (fill_order old qty price ts)
      (lower old.instrument (signed_qty old.side qty) om.pending_signed) (rw last refl)
      (λ inst.
        fill-change inst old qty price ts om.pending_signed
        ∙ ap (λ (c : ℤ). find_or (pos 0) inst om.pending_signed +ℤ c)
            (contribution-zero inst (fill_order old qty price ts) (nothing_remains old qty last))
        ∙ +ℤ-zero _)

-- A fill that passed validation keeps the invariant.
apply_fill-IsSound :
    (om : OrderManager) (id : OrderIdRaw) (qty price : ℤ) (trade : ℕ) (ts : ℤ)
    → IsConsistent om
    → contains id om.live ≡ true
    → qty ≤ℤ remaining (order_ref om id)
    → IsSound om (apply_fill id qty price trade ts om)
unfolding apply_fill tell_fill
apply_fill-IsSound om id qty price trade ts b here fits =
    let told = tell_fill id qty price trade ts om in
    choose-IsSound om (finish_fill id told) told (is_final (order_ref om id) qty)
      (λ last. finish_fill-IsSound told id (final-Books om id qty price trade ts b here last))
      (λ part. (partial-IsConsistent om id qty price trade ts b here fits part, refl))

refuse_fill-IsSound :
    (om : OrderManager) (id : OrderIdRaw) (vr : ValidationResult)
    → IsConsistent om
    → IsSound om (refuse_fill vr id (drop_event om))
refuse_fill-IsSound om id ValidationResult.unknown_order b =
    let counted = record om {
      oos_dropped_count = bump om.oos_dropped_count;
      unknown_fill_count = bump om.unknown_fill_count;
      reconcile_requested = true;
    } in
    let reason = KillReason.order_filled_not_in_system id in
    choose-IsSound om (trip_kill_switch reason counted) counted _
      (λ _. choose-IsSound om counted _ om.killed (λ _. (b, refl)) (λ _. (b, refl)))
      (λ _. (b, refl))
refuse_fill-IsSound om id _ b = (b, refl)

-- On a consistent manager a fill under a genuine id keeps the invariant and fails no assertion,
-- whether it is applied or dropped.
pub on_fill-IsSound :
    (om : OrderManager) (id : OrderIdRaw) (qty price : ℤ) (trade : ℕ) (ts : ℤ)
    → IsConsistent om
    → IsGenuine om id
    → IsSound om (on_fill om id qty price trade ts)
unfolding on_fill
on_fill-IsSound om id qty price trade ts b g =
    let vr = validate om id (fill_context trade qty price) in
    when_ok-IsSound om (apply_fill id qty price trade ts om) (refuse_fill vr id (drop_event om)) vr
      (λ h.
        apply_fill-IsSound om id qty price trade ts b (validated-live om id _ b g h)
          (validate-fill_ok om id trade qty price h).2)
      (refuse_fill-IsSound om id vr b)
