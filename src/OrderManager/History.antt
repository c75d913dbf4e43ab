-- ===== src/OrderManager/History.antt =====
-- Histories of the order manager: any sequence of calls from its constructor on (the single-writer
-- event loop of src/OrderManager.cpp), with the clients' answers chosen freely at each call.
use delta_assignment.Common.{ℕ, ◌^◌, ◌<◌, ◌≤◌, ◌≡◌, refl, ◌∙◌, true, false, String, some, arith}
use delta_assignment.Common.Int.{ℤ, pos, ◌≤ℤ◌}
use delta_assignment.OrderId.{OrderIdRaw}
use delta_assignment.Pool.{make_pool, slot_live}
use delta_assignment.Pool.Invariant
use delta_assignment.Pool.FreeList.{get_or-replicate}
use delta_assignment.OrderManager.Types.{OrderRequest, Env, RejectReason, EventKind, OrderEventKind}
use delta_assignment.OrderManager.State.{
  OrderManager, make_order_manager, set_unknown_fill_hardstop_threshold, reset_rebalance_cycle,
  clear_reconcile_request,
}
use delta_assignment.OrderManager.Submit.{
  submit, cancel, check_ack_timeouts, on_venue_disconnect, on_venue_reconnect,
}
use delta_assignment.OrderManager.Events.{
  on_confirm, on_fill, on_reject, on_cancel_ack, on_unsolicited_cancel,
}
use delta_assignment.OrderManager.Consistency.{IsConsistent}
use delta_assignment.OrderManager.Retire.{IsSound}
use delta_assignment.OrderManager.Invariant.{
  IsGenuine, on_confirm-IsSound, on_reject-IsSound, finish_cancel-IsSound,
}
use delta_assignment.OrderManager.Fill.{on_fill-IsSound}
use delta_assignment.OrderManager.Cancelling.{cancel-IsTame, check_ack_timeouts-IsTame}
use delta_assignment.OrderManager.Admission.{submit-IsSound}

-- One call. A request has no negative size and goes to a venue id of a byte; an event that names a
-- current slot and generation names the order in it by its full id.
pub data Step (om : OrderManager) : OrderManager → Type 0 where
  submits :
      (env : Env) (req : OrderRequest)
      → pos 0 ≤ℤ req.size
      → ((v : ℕ) → env.select req.instrument req.side req.size ≡ some v → v < 2 ^ 8)
      → Step om (submit env om req).0
  cancels : (env : Env) (id : OrderIdRaw) → IsGenuine om id → Step om (cancel env om id).0
  confirms :
      (id : OrderIdRaw) (exch_id : String) (ts : ℤ)
      → IsGenuine om id
      → Step om (on_confirm om id exch_id ts)
  fills :
      (id : OrderIdRaw) (qty price : ℤ) (trade : ℕ) (ts : ℤ)
      → IsGenuine om id
      → Step om (on_fill om id qty price trade ts)
  rejects :
      (id : OrderIdRaw) (reason : RejectReason) (ts : ℤ)
      → IsGenuine om id
      → Step om (on_reject om id reason ts)
  acks_cancel : (id : OrderIdRaw) (ts : ℤ) → IsGenuine om id → Step om (on_cancel_ack om id ts)
  cancels_unsolicited :
      (id : OrderIdRaw) (ts : ℤ) → IsGenuine om id → Step om (on_unsolicited_cancel om id ts)
  scans_timeouts : (env : Env) (now timeout : ℤ) → Step om (check_ack_timeouts env om now timeout)
  disconnects : (venue : ℕ) → Step om (on_venue_disconnect om venue)
  reconnects : (venue : ℕ) → Step om (on_venue_reconnect om venue)
  sets_threshold : (n : ℕ) → Step om (set_unknown_fill_hardstop_threshold om n)
  resets_cycle : Step om (reset_rebalance_cycle om)
  clears_reconcile : Step om (clear_reconcile_request om)

pub data Reach (om : OrderManager) : OrderManager → Type 0 where
  here : Reach om om
  next : {m n : OrderManager} → Reach om m → Step m n → Reach om n

-- Every call keeps the invariant and meets no failed assertion.
pub Step-IsSound : {om om' : OrderManager} → IsConsistent om → Step om om' → IsSound om om'
unfolding on_cancel_ack on_unsolicited_cancel
Step-IsSound {om} b (submits env req h byte) = submit-IsSound env om req b h byte
Step-IsSound {om} b (cancels env id g) = let tame = cancel-IsTame env om id b g in (tame.0, tame.1)
Step-IsSound {om} b (confirms id exch_id ts g) = on_confirm-IsSound om id exch_id ts b g
Step-IsSound {om} b (fills id qty price trade ts g) = on_fill-IsSound om id qty price trade ts b g
Step-IsSound {om} b (rejects id reason ts g) = on_reject-IsSound om id reason ts b g
Step-IsSound {om} b (acks_cancel id ts g) =
    finish_cancel-IsSound om id ts EventKind.cancel_ack OrderEventKind.cancelled false b g
Step-IsSound {om} b (cancels_unsolicited id ts g) =
    finish_cancel-IsSound om id ts EventKind.unsolicited_cancel OrderEventKind.unsolicited_cancel
      true b g
Step-IsSound {om} b (scans_timeouts env now timeout) =
    let tame = check_ack_timeouts-IsTame env om now timeout b in (tame.0, tame.1)
Step-IsSound {om} b (disconnects venue) = (b, refl)
Step-IsSound {om} b (reconnects venue) = (b, refl)
Step-IsSound {om} b (sets_threshold n) = (b, refl)
Step-IsSound {om} b resets_cycle = (b, refl)
Step-IsSound {om} b clears_reconcile = (b, refl)

Reach-IsSound : {om om' : OrderManager} → IsConsistent om → Reach om om' → IsSound om om'
Reach-IsSound b here = (b, refl)
Reach-IsSound b (next r st) =
    let before = Reach-IsSound b r in
    let after = Step-IsSound before.0 st in (after.0, after.1 ∙ before.1)

pub make_order_manager-IsConsistent :
    (n : ℕ) → 0 < n → n ≤ 2 ^ 24 → IsConsistent (make_order_manager n)
unfolding make_order_manager make_pool
make_order_manager-IsConsistent n h k = record {
  pool_valid = Invariant.make_pool-IsValid n h k;
  live_working = tt;
  retired_terminal = tt;
  complete = λ s l t. absurd (no_live s l);
  pending_sum = λ inst. refl;
}
  where
    no_live : (s : ℕ) → slot_live (make_pool n) s ≡ true → ⊥
    no_live s l = ground (arith, get_or-replicate n s false)

-- After any history of calls from the constructor, of a pool of 1 to 2^24 slots, the invariant
-- holds, so that the pending quantity of an instrument is the signed sum of what its live orders
-- have left, and no assertion of the pool has failed; if no request has a negative size, the
-- router's venues are bytes, and each event or cancel that names the slot and generation of a live
-- slot carries the id of the order in it.
pub Reach-IsConsistent :
    (n : ℕ) {om : OrderManager}
    → 0 < n
    → n ≤ 2 ^ 24
    → Reach (make_order_manager n) om
    → IsConsistent om × (om.stopped ≡ false)
unfolding make_order_manager
Reach-IsConsistent n h k r =
    let s = Reach-IsSound (make_order_manager-IsConsistent n h k) r in (s.0, s.1)
