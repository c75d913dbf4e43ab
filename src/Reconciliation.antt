-- ===== src/Reconciliation.antt =====
-- The startup reconciliation of include/oms/Reconciliation.h and src/Reconciliation.cpp. Positions by
-- instrument are association lists, and the `std::set` of instruments is visited in
-- ascending order; log lines are left out.
pub mod Startup
use delta_assignment.Common.{
  ltb, sort_by, ℕ, Bool, true, false, String, not, ◌||◌, List, [], ◌∷◌, ◌++◌, add, if◌then◌else◌,
}
use delta_assignment.Common.Int.{ℤ, pos, ◌-ℤ◌, ltb_ℤ, leb_ℤ, eqb_ℤ}
use delta_assignment.Common.Dict.{Dict, find_or, insert, keys}

pub data ReconAction : Type 0 where
  proceed adopt_cold_start adopt_auto_heal hard_stop : ReconAction

pub record ReconLine : Type 0 where
  pub instrument : ℕ
  pub at_local : ℤ
  pub at_exchange : ℤ
  pub action : ReconAction
  pub why : String

pub record StartupReport : Type 0 where
  pub can_start : Bool
  pub lines : List ReconLine
  pub adopted : Dict ℤ

-- The variables of the loop of StartupReconciler::reconcile.
pub record StartupScan : Type 0 where
  pub stopping : Bool
  pub scanned : List ReconLine
  pub taken : Dict ℤ

-- insts.insert for each key of a map
abbrev pub add_all : List ℕ → List ℕ → List ℕ
add_all [] insts = insts
add_all (i ∷ is) insts = add_all is (add i insts)

-- (l - e) < 0 ? (e - l) : (l - e)
abbrev pub drift_of : ℤ → ℤ → ℤ
drift_of l e = if ltb_ℤ (l -ℤ e) (pos 0) then e -ℤ l else l -ℤ e

-- What the loop decides about an instrument, and why.
unfoldable pub decide : ℤ → Bool → ℤ → ℤ → ReconAction × String
decide threshold has_persisted_state l e =
    if not has_persisted_state
    then (ReconAction.adopt_cold_start, "cold start: exchange is the only truth available")
    else if eqb_ℤ l e
    then (ReconAction.proceed, "match")
    else if leb_ℤ (drift_of l e) threshold
    then (
      ReconAction.adopt_auto_heal,
      "drift<=threshold: missed fill while down; exchange authoritative",
    )
    else (ReconAction.hard_stop, "drift>threshold: cannot distinguish missed fill from corruption")

-- report.adopted[inst] = ...
abbrev pub adopt : ReconAction → ℕ → ℤ → ℤ → Dict ℤ → Dict ℤ
adopt ReconAction.proceed inst l e m = insert inst l m
adopt ReconAction.adopt_cold_start inst l e m = insert inst e m
adopt ReconAction.adopt_auto_heal inst l e m = insert inst e m
adopt ReconAction.hard_stop inst l e m = m

abbrev pub is_stop : ReconAction → Bool
is_stop ReconAction.hard_stop = true
is_stop _ = false

-- The body of the loop, on the two positions of an instrument.
abbrev pub scan_one : ℤ → Bool → ℕ → ℤ → ℤ → StartupScan → StartupScan
scan_one threshold has_persisted_state inst l e acc =
    let (action, why) = decide threshold has_persisted_state l e in
    record {
      stopping = acc.stopping || is_stop action;
      scanned =
          acc.scanned
          ++ record { instrument = inst; at_local = l; at_exchange = e; action = action; why = why }
            ∷ [];
      taken = adopt action inst l e acc.taken;
    }

-- The loop of StartupReconciler::reconcile.
abbrev pub scan : ℤ → Bool → Dict ℤ → Dict ℤ → List ℕ → StartupScan → StartupScan
scan threshold has_persisted_state at_local at_exchange [] acc = acc
scan threshold has_persisted_state at_local at_exchange (inst ∷ insts) acc =
    scan threshold has_persisted_state at_local at_exchange insts (
      scan_one threshold has_persisted_state inst (find_or (pos 0) inst at_local)
        (find_or (pos 0) inst at_exchange) acc)

abbrev pub unreachable : StartupReport
unreachable = record {
  can_start = false;
  lines =
      record {
        instrument = 0;
        at_local = pos 0;
        at_exchange = pos 0;
        action = ReconAction.hard_stop;
        why = "exchange unreachable";
      }
      ∷ [];
  adopted = [];
}

-- The end of StartupReconciler::reconcile.
abbrev pub report_of : StartupScan → StartupReport
report_of acc = record {
  can_start = not acc.stopping;
  lines = acc.scanned;
  adopted = if acc.stopping then [] else acc.taken;
}

abbrev pub recon_insts : Dict ℤ → Dict ℤ → List ℕ
recon_insts at_local at_exchange =
    sort_by ltb (add_all (keys at_exchange) (add_all (keys at_local) []))

-- StartupReconciler::reconcile
unfoldable pub reconcile : ℤ → Dict ℤ → Bool → Bool → Dict ℤ → StartupReport
reconcile threshold at_local has_persisted_state exchange_reachable at_exchange =
    if exchange_reachable
    then report_of (
        scan threshold has_persisted_state at_local at_exchange (recon_insts at_local at_exchange)
          (record { stopping = false; scanned = []; taken = [] }))
    else unreachable
