-- ===== src/Tests/Startup.antt =====
-- Runs of the startup reconciliation: instrument 1 matches, instrument 2 drifted by 3.
use delta_assignment.Common.{◌≡◌, refl, true, false, ◌||◌, [], ◌∷◌, some}
use delta_assignment.Common.Int.{ℤ, pos, eqb_ℤ, leb_ℤ, ◌-ℤ◌}
use delta_assignment.Common.Dict.{Dict, lookup}
use delta_assignment.Reconciliation.{reconcile, decide, drift_of}
use delta_assignment.Reconciliation.Startup.{reconcile-can_start}

abbrev persisted : Dict ℤ
persisted = (1, pos 10) ∷ (2, pos 7) ∷ []

abbrev reported : Dict ℤ
reported = (1, pos 10) ∷ (2, pos 4) ∷ []

starts : (reconcile (pos 5) persisted true true reported).can_start ≡ true
unfolding reconcile decide ◌-ℤ◌
starts = refl

stays_down : (reconcile (pos 2) persisted true true reported).can_start ≡ false
unfolding reconcile decide ◌-ℤ◌
stays_down = refl

reconcile-can_start_example :
    (lookup 2 (reconcile (pos 5) persisted true true reported).adopted ≡ some (pos 4))
    × (true ≡ true → (eqb_ℤ (pos 7) (pos 4) || leb_ℤ (drift_of (pos 7) (pos 4)) (pos 5)) ≡ true)
reconcile-can_start_example = reconcile-can_start (pos 5) persisted true true reported 2 starts refl

-- A system that stays down adopts nothing.
adopts_nothing : (reconcile (pos 2) persisted true true reported).adopted ≡ []
unfolding reconcile decide ◌-ℤ◌
adopts_nothing = refl
