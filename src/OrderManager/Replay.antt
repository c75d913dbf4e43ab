-- ===== src/OrderManager/Replay.antt =====
-- Fills delivered twice (OrderManager::validate and OrderManager::on_fill of src/OrderManager.cpp).
use delta_assignment.Common.{
  ℕ, ◌≡◌, ◌≢◌, refl, ap, ◌∙◌, ◌⊎◌, inl, inr, Bool, true, false, if◌then◌else◌, add,
  contains-add_self, List, [], get_or, Option,
}
use delta_assignment.Common.Int.{ℤ}
use delta_assignment.Common.Dict.{find_or, lookup-insert_self}
use delta_assignment.OrderId.{OrderIdRaw}
use delta_assignment.Order.{Order, fresh_order, is_terminal}
use delta_assignment.Pool.{is_current}
use delta_assignment.Pool.Invariant
use delta_assignment.OrderManager.Types.{ValidationResult}
use delta_assignment.OrderManager.State.{OrderManager, slot_of, order_ref}
use delta_assignment.OrderManager.Guards.{validate, has_trade, seen_in}
use delta_assignment.OrderManager.Consistency.{order_at-set_order, current-slot_live}
use delta_assignment.OrderManager.Invariant.{validate-ok, validate-fill_ok}
use delta_assignment.OrderManager.Events.{
  on_fill, fill_context, apply_fill, tell_fill, book_fill, fill_order, finish_fill, is_final,
}
use delta_assignment.OrderManager.FillLaws.{finish_fill-ledgers}

-- The order in the slot after a fill was booked.
tell_fill-order :
    (om : OrderManager) (id : OrderIdRaw) (qty price : ℤ) (trade : ℕ) (ts : ℤ)
    → Invariant.IsValid om.pool
    → validate om id (fill_context trade qty price) ≡ ValidationResult.ok
    → order_ref (tell_fill id qty price trade ts om) id ≡ fill_order (order_ref om id) qty price ts
unfolding tell_fill book_fill
tell_fill-order om id qty price trade ts v h =
    order_at-set_order om.pool (slot_of id) (fill_order (order_ref om id) qty price ts) v
      (current-slot_live om.pool id (validate-ok om id (fill_context trade qty price) h).0)

-- The trade id of a booked fill is recorded.
has_trade-tell_fill :
    (om : OrderManager) (id : OrderIdRaw) (qty price : ℤ) (trade : ℕ) (ts : ℤ)
    → has_trade (tell_fill id qty price trade ts om) id trade ≡ true
unfolding tell_fill book_fill
has_trade-tell_fill om id qty price trade ts =
    let seen = add trade (find_or [] id om.trade_ids) in
    ap (λ (found : Option (List ℕ)). seen_in found trade) (lookup-insert_self id seen om.trade_ids)
    ∙ contains-add_self trade (find_or [] id om.trade_ids)

-- A completed order is terminal, whatever retiring it freed.
pub final-is_terminal :
    (om : OrderManager) (id : OrderIdRaw) (qty price : ℤ) (trade : ℕ) (ts : ℤ)
    → Invariant.IsValid om.pool
    → validate om id (fill_context trade qty price) ≡ ValidationResult.ok
    → is_final (order_ref om id) qty ≡ true
    → is_terminal (order_ref (finish_fill id (tell_fill id qty price trade ts om)) id).status ≡ true
final-is_terminal om id qty price trade ts v h final =
    let told = tell_fill id qty price trade ts om in
    let same = (finish_fill-ledgers id told).4 in
    ap (λ (os : List Order). is_terminal (get_or os (slot_of id) fresh_order).status) same
    ∙ ap (λ (o : Order). is_terminal o.status) (tell_fill-order om id qty price trade ts v h)
    ∙ rw final refl

-- No fill of the order with the trade id can validate: the id is stale, the order is done, or the trade
-- is in its set.
abbrev pub IsSpent : OrderManager → OrderIdRaw → ℕ → Type 0
IsSpent om id trade =
    (is_current om.pool id ≡ false)
    ⊎ ((is_terminal (order_ref om id).status ≡ true) ⊎ (has_trade om id trade ≡ true))

pub validate-IsSpent :
    (om : OrderManager) (id : OrderIdRaw) (trade : ℕ) (qty price : ℤ)
    → IsSpent om id trade
    → validate om id (fill_context trade qty price) ≢ ValidationResult.ok
validate-IsSpent om id trade qty price (inl stale) =
    λ e. let current = (validate-ok om id (fill_context trade qty price) e).0 in cc
validate-IsSpent om id trade qty price (inr (inl done)) =
    λ e. let working = (validate-ok om id (fill_context trade qty price) e).1 in cc
validate-IsSpent om id trade qty price (inr (inr seen)) =
    λ e. let new = (validate-fill_ok om id trade qty price e).3 in cc

IsSpent-by :
    (b : Bool) (om : OrderManager) (id : OrderIdRaw) (qty price : ℤ) (trade : ℕ) (ts : ℤ)
    → Invariant.IsValid om.pool
    → validate om id (fill_context trade qty price) ≡ ValidationResult.ok
    → is_final (order_ref om id) qty ≡ b
    → let told = tell_fill id qty price trade ts om in
      IsSpent (if b then finish_fill id told else told) id trade
IsSpent-by true om id qty price trade ts v h final =
    inr (inl (final-is_terminal om id qty price trade ts v h final))
IsSpent-by false om id qty price trade ts v h part =
    inr (inr (has_trade-tell_fill om id qty price trade ts))

-- A fill that was applied is spent.
pub on_fill-IsSpent :
    (om : OrderManager) (id : OrderIdRaw) (qty price : ℤ) (trade : ℕ) (ts : ℤ)
    → Invariant.IsValid om.pool
    → validate om id (fill_context trade qty price) ≡ ValidationResult.ok
    → IsSpent (on_fill om id qty price trade ts) id trade
unfolding on_fill apply_fill
on_fill-IsSpent om id qty price trade ts v h =
    rw h (IsSpent-by (is_final (order_ref om id) qty) om id qty price trade ts v h refl)
