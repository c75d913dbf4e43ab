-- ===== src/OrderManager/Submit.antt =====
-- Submission and cancellation (src/OrderManager.cpp), and the hooks for acknowledgement timeouts and
-- venue connectivity. The order in which an unordered set is walked is that of the list.
use delta_assignment.Common.{
  bump, ℕ, ◌+◌, ◌%◌, ◌^◌, Bool, true, false, not, ◌&&◌, ◌||◌, List, [], ◌∷◌, Option, none, some,
  leb, is_some, add, if◌then◌else◌,
}
use delta_assignment.Common.Int.{ℤ, pos, ◌-ℤ◌, ltb_ℤ}
use delta_assignment.Common.Dict.{Dict, lookup, find_or, insert}
use delta_assignment.OrderId.{OrderIdRaw, encode_order_id}
use delta_assignment.Order.{
  Order, OrderStatus, is_terminal, signed_qty, store_int_data, fresh_order,
}
use delta_assignment.Position.{Position, flat}
use delta_assignment.Pool.{OrderPool, acquire, is_current, generation_of, set_order}
use delta_assignment.Registry.{get}
use delta_assignment.OrderManager.Types.{SendResult, OrderRequest, Client, Env, Effect}
use delta_assignment.OrderManager.State.{
  OrderManager, KillReason, venue_of, order_ref, put_order, add_pending, emit,
}
use delta_assignment.OrderManager.Guards.{trip_kill_switch, retire}

abbrev pub is_ok : SendResult → Bool
is_ok SendResult.ok = true
is_ok _ = false

abbrev pub mark_cancelling : Order → Order
mark_cancelling o = record o { pending_cancel = true; status = OrderStatus.sent_cancel }

-- A cancel request to a client, and the order's marks if it was sent.
abbrev pub send_cancel : Client → OrderIdRaw → OrderManager → OrderManager
send_cancel ex id om =
    let o = order_ref om id in
    let told = emit (Effect.cancel_sent (venue_of id) id o.exchange_id) om in
    if is_ok (ex.cancel_order id o.exchange_id) then put_order told id (mark_cancelling o) else told

-- A cancel request where the venue has a connected client.
abbrev pub cancel_if_connected : Option Client → OrderIdRaw → OrderManager → OrderManager
cancel_if_connected none id om = om
cancel_if_connected (some ex) id om = if ex.is_connected then send_cancel ex id om else om

-- The body of the loop of OrderManager::cancel_working_orders.
unfoldable pub cancel_working : Env → OrderManager → OrderIdRaw → OrderManager
cancel_working env om id =
    let o = order_ref om id in
    if not (is_current om.pool id) || (is_terminal o.status || o.pending_cancel)
    then om
    else cancel_if_connected (get env.registry (venue_of id)) id om

abbrev pub for_each {ℓ} :
    {A : Type ℓ} → (OrderManager → A → OrderManager) → OrderManager → List A → OrderManager
for_each body om [] = om
for_each body om (x ∷ xs) = for_each body (body om x) xs

-- OrderManager::cancel_working_orders, over a snapshot of the live index
unfoldable pub cancel_working_orders : Env → OrderManager → OrderManager
cancel_working_orders env om = for_each (cancel_working env) om om.live

-- The order that OrderManager::submit writes into its slot.
abbrev pub request_order : OrderRequest → OrderIdRaw → ℤ → Order → Order
request_order req id now o =
    store_int_data
      (record o {
        internal_id = id;
        instrument = req.instrument;
        side = req.side;
        type = req.type;
        size = req.size;
        filled_size = pos 0;
        total_fill_amount = pos 0;
        limit_price = req.price;
        status = OrderStatus.new;
        strategy_id = req.strategy_id;
        algo_tag = req.algo_tag;
        reconciliation = req.reconciliation;
        ts = record o.ts { created = now };
      })
      req.worker_index req.worker_offset

-- positions_.try_emplace
abbrev pub try_emplace : ℕ → Dict Position → Dict Position
try_emplace inst m = if is_some (lookup inst m) then m else insert inst flat m

-- ++venue_seq_[venue]
abbrev pub next_seq : OrderManager → ℕ → ℕ
next_seq om venue = (find_or 0 venue om.venue_seq + 1) % 2 ^ 64

-- The id of an order in a slot of the pool: the sequence is cut to 16 bits.
abbrev pub mint : OrderManager → OrderPool → ℕ → ℕ → OrderIdRaw
mint om pool venue slot =
    encode_order_id venue (generation_of pool slot) slot (next_seq om venue % 2 ^ 16)

-- The reservation: the order is in its slot, its quantity is pending and its id is live.
unfoldable pub reserve :
    OrderRequest → ℕ → ℤ → ℕ → OrderPool → OrderIdRaw → OrderManager → OrderManager
reserve req venue now slot pool id om =
    let om' = record om {
      pool = set_order pool slot (request_order req id now fresh_order);
      venue_seq = insert venue (next_seq om venue) om.venue_seq;
      positions = try_emplace req.instrument om.positions;
      live = add id om.live;
    } in
    add_pending om' req.instrument (signed_qty req.side req.size)

-- The marks of an order that was refused before the wire.
abbrev pub unsent : OrderManager → ℕ → OrderIdRaw → OrderManager
unsent om venue id =
    let om' = put_order om id (record (order_ref om id) { status = OrderStatus.rejected }) in
    emit (Effect.health_reject venue false) (record om' { reject_count = bump om.reject_count })

-- What follows the call of place_order.
unfoldable pub settle_send :
    OrderRequest → ℕ → ℤ → OrderIdRaw → SendResult → OrderManager → OrderManager × OrderIdRaw
unfolding retire
settle_send req venue now id r om =
    let o = order_ref om id in
    if is_ok r
    then (
      put_order om id (record o { status = OrderStatus.sent; ts = record o.ts { sent = now } }),
      id,
    )
    else (retire id req.instrument req.size req.side (unsent om venue id), 0)

-- OrderManager::submit from the acquisition of a slot on
unfoldable pub place :
    Env
    → OrderRequest
    → ℕ
    → Client
    → Option (ℕ × OrderPool)
    → OrderManager
    → OrderManager × OrderIdRaw
unfolding reserve settle_send
place env req venue ex none om = (record om { stopped = true }, 0)
place env req venue ex (some (slot, pool)) om =
    let id = mint om pool venue slot in
    let reserved = reserve req venue env.now slot pool id om in
    let o = request_order req id env.now fresh_order in
    settle_send req venue env.now id (ex.place_order o)
      (emit (Effect.health_order_sent venue env.now) (emit (Effect.placed venue o) reserved))

-- OrderManager::submit to a chosen venue
unfoldable pub submit_to : Env → OrderRequest → ℕ → OrderManager → OrderManager × OrderIdRaw
unfolding place
submit_to env req venue om = elim (get env.registry venue) [
  | none ↦ (om, 0)
  | some ex ↦
      if leb om.pool.capacity om.pool.in_use
      then (
        trip_kill_switch (KillReason.order_pool_exhausted om.pool.in_use om.pool.capacity) om,
        0,
      )
      else place env req venue ex (acquire om.pool) om
]

-- OrderManager::submit. It returns the id, or 0.
unfoldable pub submit : Env → OrderManager → OrderRequest → OrderManager × OrderIdRaw
unfolding submit_to cancel_working_orders
submit env om req =
    if om.killed then (om, 0) else (elim (env.select req.instrument req.side req.size) [
      | none ↦ (cancel_working_orders env (record om { rebalance_incomplete = true }), 0)
      | some venue ↦ submit_to env req venue om
    ])

-- OrderManager::cancel, on a live order
unfoldable pub cancel_live : Env → OrderManager → OrderIdRaw → OrderManager × Bool
cancel_live env om id = elim (get env.registry (venue_of id)) [
  | none ↦ (om, false)
  | some ex ↦ (send_cancel ex id om, is_ok (ex.cancel_order id (order_ref om id).exchange_id))
]

-- OrderManager::cancel
unfoldable pub cancel : Env → OrderManager → OrderIdRaw → OrderManager × Bool
unfolding cancel_live
cancel env om id =
    if not (is_current om.pool id) || is_terminal (order_ref om id).status
    then (om, false)
    else cancel_live env om id

abbrev pub is_sent : OrderStatus → Bool
is_sent OrderStatus.sent = true
is_sent _ = false

-- Whether an order has waited `timeout` for its acknowledgement and was not marked yet.
abbrev pub ack_overdue : Order → ℤ → ℤ → Bool
ack_overdue o now timeout =
    not o.ack_timed_out && (is_sent o.status && not (ltb_ℤ (now -ℤ o.ts.sent) timeout))

-- The mark, the counter and the report of a timeout.
abbrev pub mark_timeout : OrderIdRaw → OrderManager → OrderManager
mark_timeout id om =
    let om' = put_order om id (record (order_ref om id) { ack_timed_out = true }) in
    emit (Effect.health_timeout (venue_of id))
      (record om' { ack_timeout_count = bump om.ack_timeout_count })

-- The body of the loop of OrderManager::check_ack_timeouts.
unfoldable pub check_ack : Env → ℤ → ℤ → OrderManager → OrderIdRaw → OrderManager
check_ack env now timeout om id =
    if is_current om.pool id && ack_overdue (order_ref om id) now timeout
    then (if (order_ref om id).pending_cancel
        then mark_timeout id om
        else cancel_if_connected (get env.registry (venue_of id)) id (mark_timeout id om))
    else om

-- OrderManager::check_ack_timeouts
unfoldable pub check_ack_timeouts : Env → OrderManager → ℤ → ℤ → OrderManager
check_ack_timeouts env om now timeout = for_each (check_ack env now timeout) om om.live

-- OrderManager::on_venue_disconnect
abbrev pub on_venue_disconnect : OrderManager → ℕ → OrderManager
on_venue_disconnect om venue = emit (Effect.health_disconnect venue) om

-- OrderManager::on_venue_reconnect
abbrev pub on_venue_reconnect : OrderManager → ℕ → OrderManager
on_venue_reconnect om venue =
    let om' = record om { reconcile_requested = true } in emit (Effect.health_reconnect venue) om'
