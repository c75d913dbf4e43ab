-- ===== src/OrderManager/Cancelling.antt =====
-- Cancel requests and acknowledgement timeouts (src/OrderManager.cpp) keep the invariant, and the live
-- index as it is: an order is never assumed dead.
use delta_assignment.Common.{
  ◌≡◌, refl, ◌∙◌, Bool, true, false, not, ◌&&◌, ◌||◌, List, [], ◌∷◌, Option, none, some, contains,
  inl, inr, Bool-cases, Option-cases, if◌then◌else◌, arith, ==_refl,
}
use delta_assignment.Common.Int.{ℤ}
use delta_assignment.OrderId.{OrderIdRaw}
use delta_assignment.Order.{is_terminal}
use delta_assignment.Pool.{is_current}
use delta_assignment.Registry.{get}
use delta_assignment.OrderManager.Types.{Client, Env}
use delta_assignment.OrderManager.State.{OrderManager, order_ref, venue_of}
use delta_assignment.OrderManager.Submit.{
  send_cancel, cancel_if_connected, cancel_working, cancel_working_orders, for_each, cancel,
  cancel_live, check_ack, check_ack_timeouts, mark_timeout, mark_cancelling, is_ok, ack_overdue,
}
use delta_assignment.OrderManager.Consistency.{IsConsistent, live-IsWorking}
use delta_assignment.OrderManager.Invariant.{IsGenuine, working-live, remark-IsConsistent}

-- The invariant, no failed assertion, and the same live index.
abbrev pub IsTame : OrderManager → OrderManager → Type 0
IsTame om om' = IsConsistent om' × (om'.stopped ≡ om.stopped) × (om'.live ≡ om.live)

pub IsTame-trans : (a b c : OrderManager) → IsTame a b → IsTame b c → IsTame a c
IsTame-trans a b c f g = (g.0, g.1 ∙ f.1, g.2 ∙ f.2)

pub choose-IsTame :
    (om accepted refused : OrderManager) (t : Bool)
    → (t ≡ true → IsTame om accepted)
    → (t ≡ false → IsTame om refused)
    → IsTame om (if t then accepted else refused)
choose-IsTame om accepted refused true a r = a refl
choose-IsTame om accepted refused false a r = r refl

send_cancel-IsTame :
    (om : OrderManager) (ex : Client) (id : OrderIdRaw)
    → IsConsistent om
    → contains id om.live ≡ true
    → IsTame om (send_cancel ex id om)
send_cancel-IsTame om ex id b here =
    choose-IsTame om _ _ (is_ok (ex.cancel_order id (order_ref om id).exchange_id))
      (λ _. (
        remark-IsConsistent om id (mark_cancelling (order_ref om id)) b here refl refl refl refl
            refl refl,
        refl,
        refl,
      ))
      (λ _. (b, refl, refl))

cancel_if_connected-IsTame :
    (om : OrderManager) (ex : Option Client) (id : OrderIdRaw)
    → IsConsistent om
    → contains id om.live ≡ true
    → IsTame om (cancel_if_connected ex id om)
cancel_if_connected-IsTame om none id b here = (b, refl, refl)
cancel_if_connected-IsTame om (some ex) id b here =
    choose-IsTame om _ _ ex.is_connected (λ _. send_cancel-IsTame om ex id b here)
      (λ _. (b, refl, refl))

cancel_working-IsTame :
    (env : Env) (om : OrderManager) (id : OrderIdRaw)
    → IsConsistent om
    → contains id om.live ≡ true
    → IsTame om (cancel_working env om id)
unfolding cancel_working
cancel_working-IsTame env om id b here =
    choose-IsTame om _ _ _ (λ _. (b, refl, refl))
      (λ _. cancel_if_connected-IsTame om (get env.registry (venue_of id)) id b here)

-- All ids of a list are live.
abbrev AllLive : List OrderIdRaw → OrderManager → Type 0
AllLive [] om = Unit {0}
AllLive (id ∷ ids) om = (contains id om.live ≡ true) × AllLive ids om

AllLive-same :
    (ids : List OrderIdRaw) (om om' : OrderManager)
    → om'.live ≡ om.live
    → AllLive ids om
    → AllLive ids om'
AllLive-same [] om om' e a = tt
AllLive-same (id ∷ ids) om om' e a = (rw e a.0, AllLive-same ids om om' e a.1)

for_each-IsTame :
    (body : OrderManager → OrderIdRaw → OrderManager) (ids : List OrderIdRaw) (om : OrderManager)
    → ((m : OrderManager) (id : OrderIdRaw)
        → IsConsistent m
        → contains id m.live ≡ true
        → IsTame m (body m id))
    → AllLive ids om
    → IsConsistent om
    → IsTame om (for_each body om ids)
for_each-IsTame body [] om keep a b = (b, refl, refl)
for_each-IsTame body (id ∷ ids) om keep a b =
    let now = keep om id b a.0 in
    IsTame-trans om (body om id) (for_each body (body om id) ids) now (
      for_each-IsTame body ids (body om id) keep (AllLive-same ids om (body om id) now.2 a.1) now.0)

within :
    (ids : List OrderIdRaw) (om : OrderManager)
    → ((id : OrderIdRaw) → contains id ids ≡ true → contains id om.live ≡ true)
    → AllLive ids om
within [] om h = tt
within (id ∷ ids) om h = (h id (rw (==_refl id) refl), within ids om (λ j k. h j (ground arith)))

own_live : (om : OrderManager) → AllLive om.live om
own_live om = within om.live om (λ id h. h)

-- On a consistent manager cancelling all working orders keeps the invariant and the live index, and fails
-- no assertion.
pub cancel_working_orders-IsTame :
    (env : Env) (om : OrderManager) → IsConsistent om → IsTame om (cancel_working_orders env om)
unfolding cancel_working_orders
cancel_working_orders-IsTame env om b =
    for_each-IsTame (cancel_working env) om.live om (cancel_working-IsTame env) (own_live om) b

mark_timeout-IsTame :
    (om : OrderManager) (id : OrderIdRaw)
    → IsConsistent om
    → contains id om.live ≡ true
    → IsTame om (mark_timeout id om)
mark_timeout-IsTame om id b here =
    let works = (live-IsWorking om.pool id om.live b.live_working here).1 in
    (
      remark-IsConsistent om id (record (order_ref om id) { ack_timed_out = true }) b here refl refl
          refl refl refl works.1,
      refl,
      refl,
    )

check_ack-IsTame :
    (env : Env) (now timeout : ℤ) (om : OrderManager) (id : OrderIdRaw)
    → IsConsistent om
    → contains id om.live ≡ true
    → IsTame om (check_ack env now timeout om id)
unfolding check_ack
check_ack-IsTame env now timeout om id b here =
    let marked = mark_timeout id om in
    let tame = mark_timeout-IsTame om id b here in
    let ex = get env.registry (venue_of id) in
    let attempt = cancel_if_connected ex id marked in
    choose-IsTame om (if (order_ref om id).pending_cancel then marked else attempt) om
      (is_current om.pool id && ack_overdue (order_ref om id) now timeout)
      (λ _.
        choose-IsTame om marked attempt (order_ref om id).pending_cancel (λ _. tame)
          (λ _.
            IsTame-trans om marked attempt tame
              (cancel_if_connected-IsTame marked ex id tame.0 here)))
      (λ _. (b, refl, refl))

-- On a consistent manager the scan for timeouts keeps the invariant and the live index, so that every order
-- stays live whatever the venues answer, and fails no assertion.
pub check_ack_timeouts-IsTame :
    (env : Env) (om : OrderManager) (now timeout : ℤ)
    → IsConsistent om
    → IsTame om (check_ack_timeouts env om now timeout)
unfolding check_ack_timeouts
check_ack_timeouts-IsTame env om now timeout b =
    for_each-IsTame (check_ack env now timeout) om.live om (check_ack-IsTame env now timeout)
      (own_live om) b

cancel_live-IsTame :
    (env : Env) (om : OrderManager) (id : OrderIdRaw)
    → IsConsistent om
    → contains id om.live ≡ true
    → IsTame om (cancel_live env om id).0
unfolding cancel_live
cancel_live-IsTame env om id b here = elim (Option-cases (get env.registry (venue_of id))) [
  | inl e ↦ rw (e, cancel_live) (b, refl, refl)
  | inr (ex, e) ↦ rw (e, cancel_live) (send_cancel-IsTame om ex id b here)
]

neither : (a b : Bool) → (not a || b) ≡ false → (a ≡ true) × (b ≡ false)
neither a b h = ground arith

-- On a consistent manager a cancel request under a genuine id keeps the invariant and the live index, and
-- fails no assertion, whatever the venue answers.
pub cancel-IsTame :
    (env : Env) (om : OrderManager) (id : OrderIdRaw)
    → IsConsistent om
    → IsGenuine om id
    → IsTame om (cancel env om id).0
unfolding cancel
cancel-IsTame env om id b g =
    elim (Bool-cases (not (is_current om.pool id) || is_terminal (order_ref om id).status)) [
      | inl e ↦ rw e (b, refl, refl)
      | inr e ↦
          let (c, t) = neither _ _ e in
          rw e (cancel_live-IsTame env om id b (working-live om id b g c t))
    ]
