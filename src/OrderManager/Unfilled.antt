-- ===== src/OrderManager/Unfilled.antt =====
-- What a submission leaves alone (OrderManager::submit of src/OrderManager.cpp): no position moves before a fill.
use delta_assignment.Common.{
  ℕ, ◌≡◌, refl, sym, ap, ◌∙◌, true, not, ◌||◌, List, [], ◌∷◌, Option, none, some, leb, inl, inr,
  Option-cases, if-both, ◌==◌, ==_iff,
}
use delta_assignment.Common.Int.{ℤ, pos, ltb_ℤ}
use delta_assignment.Common.Dict.{Dict, lookup, find_or, find_or-insert, find_or-lookup}
use delta_assignment.OrderId.{OrderIdRaw}
use delta_assignment.Order.{Side, is_terminal}
use delta_assignment.Position.{Position, flat}
use delta_assignment.Pool.{OrderPool, acquire, is_current}
use delta_assignment.Registry.{get}
use delta_assignment.OrderManager.Types.{SendResult, OrderRequest, Client, Env}
use delta_assignment.OrderManager.State.{OrderManager, venue_of, order_ref, position}
use delta_assignment.OrderManager.Guards.{retire, unindex}
use delta_assignment.OrderManager.Submit.{
  is_ok, send_cancel, cancel_if_connected, cancel_working, for_each, cancel_working_orders,
  try_emplace, reserve, settle_send, unsent, place, submit_to, submit,
}
use delta_assignment.OrderManager.FillLaws.{trim_fifo-ledgers}

find_or-try_emplace :
    (k j : ℕ) (m : Dict Position) → find_or flat j (try_emplace k m) ≡ find_or flat j m
find_or-try_emplace k j m = elim (Option-cases (lookup k m)) [
  | inl e ↦ rw e (
      find_or-insert flat k j flat m
      ∙ if-both (λ (p : Position). p ≡ find_or flat j m) (j == k) flat (find_or flat j m)
          (λ s. sym (
            ap (λ (i : ℕ). find_or flat i m) ((==_iff j k).0 s)
            ∙ find_or-lookup flat k m
            ∙ rw e refl))
          (λ s. refl))
  | inr (p, e) ↦ rw e refl
]

retire-positions :
    (id : OrderIdRaw) (inst : ℕ) (rem : ℤ) (side : Side) (om : OrderManager)
    → (retire id inst rem side om).positions ≡ om.positions
unfolding retire
retire-positions id inst rem side om =
    (trim_fifo-ledgers (unindex id inst rem side om)).0
    ∙ if-both (λ (m : OrderManager). m.positions ≡ om.positions) (ltb_ℤ (pos 0) rem) _ om
        (λ e. refl) (λ e. refl)

send_cancel-positions :
    (ex : Client) (id : OrderIdRaw) (om : OrderManager)
    → (send_cancel ex id om).positions ≡ om.positions
send_cancel-positions ex id om =
    if-both (λ (m : OrderManager). m.positions ≡ om.positions)
      (is_ok (ex.cancel_order id (order_ref om id).exchange_id)) _ _ (λ e. refl) (λ e. refl)

cancel_if_connected-positions :
    (found : Option Client) (id : OrderIdRaw) (om : OrderManager)
    → (cancel_if_connected found id om).positions ≡ om.positions
cancel_if_connected-positions none id om = refl
cancel_if_connected-positions (some ex) id om =
    if-both (λ (m : OrderManager). m.positions ≡ om.positions) ex.is_connected _ om
      (λ e. send_cancel-positions ex id om) (λ e. refl)

cancel_working-positions :
    (env : Env) (om : OrderManager) (id : OrderIdRaw)
    → (cancel_working env om id).positions ≡ om.positions
unfolding cancel_working
cancel_working-positions env om id =
    if-both (λ (m : OrderManager). m.positions ≡ om.positions)
      (not (is_current om.pool id)
        || (is_terminal (order_ref om id).status || (order_ref om id).pending_cancel))
      om _ (λ e. refl) (λ e. cancel_if_connected-positions (get env.registry (venue_of id)) id om)

cancel_each-positions :
    (env : Env) (ids : List OrderIdRaw) (om : OrderManager)
    → (for_each (cancel_working env) om ids).positions ≡ om.positions
cancel_each-positions env [] om = refl
cancel_each-positions env (id ∷ ids) om =
    cancel_each-positions env ids (cancel_working env om id) ∙ cancel_working-positions env om id

cancel_working_orders-positions :
    (env : Env) (om : OrderManager) → (cancel_working_orders env om).positions ≡ om.positions
unfolding cancel_working_orders
cancel_working_orders-positions env om = cancel_each-positions env om.live om

settle_send-positions :
    (req : OrderRequest) (venue : ℕ) (now : ℤ) (id : OrderIdRaw) (r : SendResult)
    (om : OrderManager)
    → (settle_send req venue now id r om).0.positions ≡ om.positions
unfolding settle_send
settle_send-positions req venue now id r om =
    if-both (λ (m : OrderManager × OrderIdRaw). m.0.positions ≡ om.positions) (is_ok r) _ _
      (λ e. refl) (λ e. retire-positions id req.instrument req.size req.side (unsent om venue id))

place-position :
    (env : Env) (req : OrderRequest) (venue : ℕ) (ex : Client) (taken : Option (ℕ × OrderPool))
    (om : OrderManager) (inst : ℕ)
    → position (place env req venue ex taken om).0 inst ≡ position om inst
unfolding place reserve
place-position env req venue ex none om inst = refl
place-position env req venue ex (some (slot, pool)) om inst =
    ap (λ (m : Dict Position). find_or flat inst m) (settle_send-positions req venue env.now _ _ _)
    ∙ find_or-try_emplace req.instrument inst om.positions

submit_to-position :
    (env : Env) (req : OrderRequest) (venue : ℕ) (om : OrderManager) (inst : ℕ)
    → position (submit_to env req venue om).0 inst ≡ position om inst
unfolding submit_to
submit_to-position env req venue om inst = elim (Option-cases (get env.registry venue)) [
  | inl e ↦ rw (e, submit_to) refl
  | inr (ex, e) ↦
      rw (e, submit_to)
        (if-both (λ (m : OrderManager × OrderIdRaw). position m.0 inst ≡ position om inst)
          (leb om.pool.capacity om.pool.in_use) _ _
          (λ full.
            if-both (λ (m : OrderManager). position m inst ≡ position om inst) om.killed om _
              (λ k. refl) (λ k. refl))
          (λ free. place-position env req venue ex (acquire om.pool) om inst))
]

-- A submission moves no position, whatever becomes of it.
pub submit-position :
    (env : Env) (om : OrderManager) (req : OrderRequest) (inst : ℕ)
    → position (submit env om req).0 inst ≡ position om inst
unfolding submit
submit-position env om req inst =
    let Same : OrderManager × OrderIdRaw → Type 0 = λ m. position m.0 inst ≡ position om inst in
    let idle = record om { rebalance_incomplete = true } in
    elim (Option-cases (env.select req.instrument req.side req.size)) [
      | inl e ↦
          rw (e, submit)
            (if-both Same om.killed _ _ (λ k. refl)
              (λ k.
                ap (λ (m : Dict Position). find_or flat inst m)
                  (cancel_working_orders-positions env idle)))
      | inr (venue, e) ↦
          rw (e, submit)
            (if-both Same om.killed _ _ (λ k. refl) (λ k. submit_to-position env req venue om inst))
    ]
