-- ===== src/OrderManager/Admission.antt =====
-- Submission (OrderManager::submit of src/OrderManager.cpp) keeps the invariant, on every branch.
use delta_assignment.Common.{
  ℕ, ◌%◌, ◌^◌, ◌<◌, ◌≡◌, refl, sym, ap, subst, ◌≢◌, ◌∙◌, true, [], ◌∷◌, ◌++◌, Option, none, some,
  contains, contains-add_self, remove, leb, inl, inr, Bool-cases, Option-cases, ==_iff, ◌==◌,
  if◌then◌else◌, arith,
}
use delta_assignment.Common.Int.{ℤ, pos, ◌+ℤ◌, ◌-ℤ◌, ◌≤ℤ◌, +ℤ-zero, int_laws}
use delta_assignment.Common.Dict.{Dict, find_or, insert, find_or-insert_self, find_or-insert_ne}
use delta_assignment.OrderId.{OrderIdRaw, OrderId, decode_order_id}
use delta_assignment.OrderId.RoundTrip.{decode-encode}
use delta_assignment.Order.{Order, OrderStatus, signed_qty, remaining, fresh_order}
use delta_assignment.Pool.{OrderPool, acquire, is_current, generation_of, set_order}
use delta_assignment.Pool.Invariant
use delta_assignment.Registry.{get}
use delta_assignment.OrderManager.Types.{SendResult, OrderRequest, Client, Env, Effect}
use delta_assignment.OrderManager.State.{
  OrderManager, KillReason, slot_of, order_ref, pending_quantity, emit,
}
use delta_assignment.OrderManager.Guards.{trip_kill_switch}
use delta_assignment.OrderManager.Submit.{
  submit, submit_to, place, settle_send, reserve, request_order, mint, next_seq, is_ok, unsent,
}
use delta_assignment.OrderManager.Consistency.{Books, IsConsistent, order_at-set_order}
use delta_assignment.OrderManager.Transitions.{Books-admit}
use delta_assignment.OrderManager.Retire.{IsSound, retire-IsSound, unwound}
use delta_assignment.OrderManager.Invariant.{remark-IsConsistent, ended-Books, choose-IsSound}
use delta_assignment.OrderManager.Cancelling.{cancel_working_orders-IsTame}

-ℤ-zero : (a : ℤ) → a -ℤ pos 0 ≡ a
-ℤ-zero a = omega int_laws

-- A quantity added on one instrument.
raise-change :
    (i inst : ℕ) (q : ℤ) (pending : Dict ℤ)
    → find_or (pos 0) inst (insert i (find_or (pos 0) i pending +ℤ q) pending)
      ≡ find_or (pos 0) inst pending +ℤ (if i == inst then q else pos 0)
raise-change i inst q pending = elim (Bool-cases (i == inst)) [
  | inl e ↦
      let same : i ≡ inst = (==_iff i inst).0 e in
      rw (e, ← same, find_or-insert_self (pos 0) i (find_or (pos 0) i pending +ℤ q) pending) refl
  | inr e ↦
      rw
        (
          e,
          find_or-insert_ne (pos 0) i inst (find_or (pos 0) i pending +ℤ q) pending (ground arith),
        )
        (sym (+ℤ-zero _))
]

module _ (om : OrderManager) (pool : OrderPool) (venue slot : ℕ) (b : IsConsistent om)
    (taken : acquire om.pool ≡ some (slot, pool)) (byte : venue < 2 ^ 8) where
  acquired : Invariant.Acquires om.pool (some (slot, pool))
  acquired = rw taken at (Invariant.acquire-Acquires om.pool b.pool_valid)

  minted : decode_order_id (mint om pool venue slot) ≡ record {
    venue = venue;
    generation = generation_of pool slot;
    slot = slot;
    sequence = next_seq om venue % 2 ^ 16;
  }
  minted =
      decode-encode venue (generation_of pool slot) slot (next_seq om venue % 2 ^ 16) byte
        (acquired.5.generation_fits slot) (omega (arith, acquired.3, b.pool_valid.addressable))
        (omega arith)

  pub mint-slot : slot_of (mint om pool venue slot) ≡ slot
  mint-slot = ap (λ (d : OrderId). d.slot) minted

  pub mint-current : is_current pool (mint om pool venue slot) ≡ true
  unfolding is_current
  mint-current = rw (minted, acquired.2) (ground arith)

  -- The order of a request is admitted with its quantity pending.
  pub reserve-IsConsistent :
      (req : OrderRequest) (now : ℤ)
      → pos 0 ≤ℤ req.size
      → IsConsistent (reserve req venue now slot pool (mint om pool venue slot) om)
  unfolding reserve
  reserve-IsConsistent req now h =
      let id = mint om pool venue slot in
      let o = request_order req id now fresh_order in
      rw mint-slot at (
        Books-admit om.pool pool om.live om.retired_fifo om.pending_signed
          (insert req.instrument
            (pending_quantity om req.instrument +ℤ signed_qty req.side req.size) om.pending_signed)
          id o b (rw mint-slot taken) mint-current (refl, refl, omega int_laws)
          (λ inst.
            rw (-ℤ-zero req.size)
              (raise-change req.instrument inst (signed_qty req.side req.size) om.pending_signed)))

  -- The admitted order stands in its slot.
  pub reserve-order :
      (req : OrderRequest) (now : ℤ)
      → let id = mint om pool venue slot in
        order_ref (reserve req venue now slot pool id om) id ≡ request_order req id now fresh_order
  unfolding reserve
  reserve-order req now = rw mint-slot (
      order_at-set_order pool slot (request_order req (mint om pool venue slot) now fresh_order)
        acquired.5 acquired.2)

-- A live order whose send went through, or is unwound because it did not.
settle_send-IsSound :
    (om : OrderManager) (req : OrderRequest) (venue : ℕ) (now : ℤ) (id : OrderIdRaw)
    (r : SendResult)
    → IsConsistent om
    → contains id om.live ≡ true
    → order_ref om id ≡ request_order req id now fresh_order
    → IsSound om (settle_send req venue now id r om).0
unfolding settle_send
settle_send-IsSound om req venue now id r b here is = elim (Bool-cases (is_ok r)) [
  | inl e ↦
      let o = order_ref om id in
      rw e (
        remark-IsConsistent om id
            (record o { status = OrderStatus.sent; ts = record o.ts { sent = now } }) b here refl
            refl refl refl refl refl,
        refl,
      )
  | inr e ↦ rw e (retire-IsSound (unsent om venue id) id req.instrument req.size req.side unwinds)
]
  where
    unwinds :
        let old = order_ref om id in
        Books
          (set_order om.pool (slot_of id) (record old { status = OrderStatus.rejected }))
          (remove id om.live)
          (om.retired_fifo ++ id ∷ [])
          (unwound req.instrument req.size req.side om.pending_signed)
    unwinds =
        subst
          (λ (m : Dict ℤ).
            Books
              (set_order om.pool (slot_of id)
                (record (order_ref om id) { status = OrderStatus.rejected }))
              (remove id om.live) (om.retired_fifo ++ id ∷ []) m)
          (ap (λ (x : Order). unwound x.instrument (remaining x) x.side om.pending_signed) is
            ∙ ap (λ (q : ℤ). unwound req.instrument q req.side om.pending_signed)
                (-ℤ-zero req.size))
          (ended-Books om id (record (order_ref om id) { status = OrderStatus.rejected }) b here
            refl)

-- The placement of a request on a venue, once a slot was taken.
place-IsSound :
    (env : Env) (req : OrderRequest) (venue : ℕ) (ex : Client) (om : OrderManager)
    (r : Option (ℕ × OrderPool))
    → IsConsistent om
    → om.pool.in_use ≢ om.pool.capacity
    → venue < 2 ^ 8
    → pos 0 ≤ℤ req.size
    → acquire om.pool ≡ r
    → IsSound om (place env req venue ex r om).0
unfolding place
place-IsSound env req venue ex om none b room byte h e =
    let full : Invariant.Acquires om.pool none =
      rw e at (Invariant.acquire-Acquires om.pool b.pool_valid) in
    absurd (room full)
place-IsSound env req venue ex om (some (slot, pool)) b room byte h e =
    let id = mint om pool venue slot in
    let reserved = reserve req venue env.now slot pool id om in
    let o = request_order req id env.now fresh_order in
    let sent =
      emit (Effect.health_order_sent venue env.now) (emit (Effect.placed venue o) reserved) in
    unfold reserve in
    settle_send-IsSound sent req venue env.now id (ex.place_order o)
      (reserve-IsConsistent om pool venue slot b e byte req env.now h)
      (contains-add_self id om.live) (reserve-order om pool venue slot b e byte req env.now)

submit_to-IsSound :
    (env : Env) (req : OrderRequest) (venue : ℕ) (om : OrderManager)
    → IsConsistent om
    → venue < 2 ^ 8
    → pos 0 ≤ℤ req.size
    → IsSound om (submit_to env req venue om).0
unfolding submit_to
submit_to-IsSound env req venue om b byte h = elim (Option-cases (get env.registry venue)) [
  | inl e ↦ rw (e, submit_to) (b, refl)
  | inr (ex, e) ↦ rw (e, submit_to) (room ex)
]
  where
    room :
        (ex : Client)
        → IsSound om
            (if leb om.pool.capacity om.pool.in_use
              then (
                trip_kill_switch
                    (KillReason.order_pool_exhausted om.pool.in_use om.pool.capacity)
                    om,
                0,
              )
              else place env req venue ex (acquire om.pool) om).0
    room ex = elim (Bool-cases (leb om.pool.capacity om.pool.in_use)) [
      | inl e ↦ rw e (choose-IsSound om om _ om.killed (λ _. (b, refl)) (λ _. (b, refl)))
      | inr e ↦
          rw e (place-IsSound env req venue ex om (acquire om.pool) b (ground arith) byte h refl)
    ]

-- On a consistent manager a submission keeps the invariant, and meets no failed assertion, on every
-- branch: killed, all-down, no client, pool exhausted, refused locally, sent. The router's venue is
-- a byte and the size is not negative.
pub submit-IsSound :
    (env : Env) (om : OrderManager) (req : OrderRequest)
    → IsConsistent om
    → pos 0 ≤ℤ req.size
    → ((v : ℕ) → env.select req.instrument req.side req.size ≡ some v → v < 2 ^ 8)
    → IsSound om (submit env om req).0
unfolding submit
submit-IsSound env om req b h byte = elim (Bool-cases om.killed) [
  | inl e ↦ rw e (b, refl)
  | inr e ↦ rw e (elim (Option-cases (env.select req.instrument req.side req.size)) [
    | inl none_left ↦
        let down = record om { rebalance_incomplete = true } in
        let tame = cancel_working_orders-IsTame env down b in
        rw (none_left, submit) (tame.0, tame.1)
    | inr (v, chosen) ↦ rw (chosen, submit) (submit_to-IsSound env req v om b (byte v chosen) h)
  ])
]
