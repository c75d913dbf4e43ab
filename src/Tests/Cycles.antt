-- ===== src/Tests/Cycles.antt =====
-- Runs of the periodic reconciliation.
use delta_assignment.Common.{ltb, sort_by, ◌≡◌, refl, false, List, [], ◌∷◌, arith}
use delta_assignment.Common.Int.{pos, ◌-ℤ◌, ◌+ℤ◌}
use delta_assignment.Common.Dict.{find_or, keys}
use delta_assignment.Reconciliation.{add_all}
use delta_assignment.OrderManager.State.{make_order_manager, position, instruments}
use delta_assignment.OrderManager.Retire.{IsSound}
use delta_assignment.Periodic.{
  PeriodicReconConfig, PeriodicReconciler, Reported, DriftAction, DriftRecord, reconcile_now,
  exchange_positions, cycle, act,
}
use delta_assignment.Periodic.Safety.{RoutesBytes, reconcile_now-IsSound}
use delta_assignment.Periodic.Judgement.{IsScan, reconcile_now-IsScan}
use delta_assignment.Tests.Orders.{one_venue, idle, working, working-IsConsistent}

abbrev eager : PeriodicReconConfig
eager = record { reconcile_threshold = pos 0; auto_heal_band = pos 5; persist_cycles = pos 1 }

-- The exchange has 3 of instrument 7 more than the fills that arrived.
abbrev three_more : Reported
three_more = record { get_positions = λ v. (7, pos 3) ∷ []; mid = λ inst. pos 50 }

abbrev over_working : PeriodicReconciler
over_working = record {
  om = working;
  persist = [];
  halted = false;
  corrective_orders = 0;
  halts = 0;
}

abbrev over_idle : PeriodicReconciler
over_idle = record { om = idle; persist = []; halted = false; corrective_orders = 0; halts = 0 }

abbrev actions : List DriftRecord → List DriftAction
actions [] = []
actions (l ∷ ls) = l.action ∷ actions ls

routes_bytes : RoutesBytes one_venue
routes_bytes inst side size v e = ground arith

reconcile_now-IsSound_example :
    IsSound working (reconcile_now eager one_venue three_more (pos 500) over_working).0.om
reconcile_now-IsSound_example =
    reconcile_now-IsSound eager one_venue three_more (pos 500) over_working working-IsConsistent
      routes_bytes

reconcile_now-IsScan_example :
    let done = reconcile_now eager one_venue three_more (pos 500) over_working in
    let ex_pos = exchange_positions one_venue three_more in
    IsScan eager
      (λ i. find_or (pos 0) i ex_pos)
      (λ i. (position working i).net)
      (sort_by ltb (add_all (instruments working) (add_all (keys ex_pos) [])))
      done.1
      done.0.halted
reconcile_now-IsScan_example =
    reconcile_now-IsScan eager one_venue three_more (pos 500) over_working refl

-- A drift of 3 within the band of 5 is healed.
heals :
    actions (reconcile_now eager one_venue three_more (pos 500) over_idle).1
    ≡ DriftAction.auto_healed ∷ []
unfolding reconcile_now cycle act make_order_manager ◌-ℤ◌ ◌+ℤ◌
heals = refl
