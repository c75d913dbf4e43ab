-- ===== src/Periodic/Safety.antt =====
-- What a cycle of PeriodicReconciler::reconcile (src/Reconciliation.cpp) does to the order manager.
use delta_assignment.Common.{
  ℕ, ltb, sort_by, ◌^◌, ◌<◌, ◌≡◌, refl, ◌∙◌, Bool, true, false, List, [], ◌∷◌, some, inl, inr,
  Bool-cases, if◌then◌else◌, arith,
}
use delta_assignment.Common.Int.{ℤ, pos, negsuc, neg, ◌+ℤ◌, ltb_ℤ, leb_ℤ, ◌≤ℤ◌}
use delta_assignment.Common.Dict.{Dict, find_or, keys}
use delta_assignment.Order.{Side}
use delta_assignment.OrderManager.Types.{Env}
use delta_assignment.OrderManager.State.{OrderManager, instruments}
use delta_assignment.OrderManager.Consistency.{IsConsistent}
use delta_assignment.OrderManager.Retire.{IsSound}
use delta_assignment.OrderManager.Admission.{submit-IsSound}
use delta_assignment.Reconciliation.{add_all}
use delta_assignment.Periodic.{
  PeriodicReconConfig, PeriodicReconciler, Reported, size_of, corrective, act, cycle, drift_at,
  exchange_positions, reconcile_now,
}

size_of-not_negative : (drift : ℤ) → pos 0 ≤ℤ size_of drift
unfolding neg
size_of-not_negative (pos n) = ground arith
size_of-not_negative (negsuc n) = ground arith

-- The router answers with venue ids of a byte.
abbrev pub RoutesBytes : Env → Type 0
RoutesBytes env =
    (inst : ℕ) (side : Side) (size : ℤ) (v : ℕ) → env.select inst side size ≡ some v → v < 2 ^ 8

choose-om :
    {B : Type 0} (om : OrderManager) (t : Bool) (a b : PeriodicReconciler × B)
    → IsSound om a.0.om
    → IsSound om b.0.om
    → IsSound om (if t then a else b).0.om
choose-om om true a b s u = s
choose-om om false a b s u = u

act-IsSound :
    (cfg : PeriodicReconConfig) (env : Env) (reported : Reported) (inst : ℕ) (drift : ℤ)
    (r : PeriodicReconciler)
    → IsConsistent r.om
    → RoutesBytes env
    → IsSound r.om (act cfg env reported inst drift r).0.om
unfolding act
act-IsSound cfg env reported inst drift r b byte =
    let req = corrective env reported inst drift in
    let sent =
      submit-IsSound env r.om req b (size_of-not_negative drift)
        (byte req.instrument req.side req.size) in
    choose-om r.om (leb_ℤ (size_of drift) cfg.reconcile_threshold) _ _ (b, refl)
      (choose-om r.om (ltb_ℤ (find_or (pos 0) inst r.persist +ℤ pos 1) cfg.persist_cycles) _ _
        (b, refl) (choose-om r.om (leb_ℤ (size_of drift) cfg.auto_heal_band) _ _ sent (b, refl)))

cycle-IsSound :
    (cfg : PeriodicReconConfig) (env : Env) (reported : Reported) (now : ℤ) (ex_pos : Dict ℤ)
    (insts : List ℕ) (r : PeriodicReconciler)
    → IsConsistent r.om
    → RoutesBytes env
    → IsSound r.om (cycle cfg env reported now ex_pos insts r).0.om
unfolding cycle
cycle-IsSound cfg env reported now ex_pos [] r b byte = (b, refl)
cycle-IsSound cfg env reported now ex_pos (i ∷ is) r b byte =
    let acted = act cfg env reported i (drift_at ex_pos r.om i) r in
    let first = act-IsSound cfg env reported i (drift_at ex_pos r.om i) r b byte in
    let rest = cycle-IsSound cfg env reported now ex_pos is acted.0 first.0 byte in
    elim (Bool-cases acted.0.halted) [
      | inl e ↦ rw e first
      | inr e ↦ rw e (rest.0, rest.1 ∙ first.1)
    ]

-- On a consistent order manager a cycle keeps its invariant and meets no failed assertion, whatever
-- corrective orders it submits, if the router's venues are bytes.
pub reconcile_now-IsSound :
    (cfg : PeriodicReconConfig) (env : Env) (reported : Reported) (now : ℤ) (r : PeriodicReconciler)
    → IsConsistent r.om
    → RoutesBytes env
    → IsSound r.om (reconcile_now cfg env reported now r).0.om
unfolding reconcile_now
reconcile_now-IsSound cfg env reported now r b byte =
    choose-om r.om r.halted (r, []) _ (b, refl)
      (cycle-IsSound cfg env reported now (exchange_positions env reported)
        (sort_by ltb
          (add_all (instruments r.om) (add_all (keys (exchange_positions env reported)) [])))
        r b byte)
