-- ===== src/Tests/Nets.antt =====
-- Runs of the netting engine with two strategies in instrument 7.
use delta_assignment.Common.{
  ℕ, ◌-◌, ◌==◌, Bool, ◌&&◌, ◌<◌, ◌≡◌, refl, List, [], ◌∷◌, true, false, arith,
}
use delta_assignment.Common.Int.{pos, negsuc, ◌+ℤ◌, ◌-ℤ◌}
use delta_assignment.Common.Dict.{find_or}
use delta_assignment.Netting.{
  Contrib, NettingEngine, make_netting, key, set_target, set_attributed, compute_cycle, gross_of,
  apportion, sum_base, attribute_fill, check_invariant,
}
use delta_assignment.Netting.Shares.{
  IsRanked, IsShared, floors, tally, tally_contribs, apportion-IsShared,
}
use delta_assignment.Netting.Life.{Step, Life, check_invariant-Life}

-- Strategy 1 wants 7 and strategy 2 wants -2: a net order of 5.
abbrev wanted : NettingEngine
wanted = set_target (set_target make_netting 1 7 (pos 7)) 2 7 (negsuc 1)

abbrev cycled : NettingEngine
cycled = (compute_cycle [] wanted).0

net_order : (compute_cycle [] wanted).1 ≡ record { instrument = 7; delta = pos 5 } ∷ []
unfolding compute_cycle set_target key ◌-ℤ◌ ◌+ℤ◌
net_order = refl

abbrev two_contribs : List Contrib
two_contribs = (1, pos 7) ∷ (2, negsuc 1) ∷ []

contributions : find_or [] 7 cycled.contrib ≡ two_contribs
unfolding compute_cycle set_target key ◌-ℤ◌ ◌+ℤ◌
contributions = refl

gross_positive : 0 < gross_of (find_or [] 7 cycled.contrib)
gross_positive = rw contributions (omega arith)

check_invariant-Life_example : check_invariant (attribute_fill cycled 7 (pos 5)) ≡ true
check_invariant-Life_example = check_invariant-Life (
    Life.next
      (Life.next
        (Life.next (Life.next Life.made (Step.target 1 7 (pos 7) (omega arith)))
          (Step.target 2 7 (negsuc 1) (omega arith)))
        (Step.cycle []))
      (Step.fill 7 (pos 5) (omega arith) gross_positive))

-- The share of strategy 2.
abbrev of_two : ℕ → ℕ → Bool
of_two s weight = (s == 2) && (weight == 2)

apportion-IsShared_example :
    (sum_base (apportion 5 two_contribs) ≡ 5)
    × (tally of_two (apportion 5 two_contribs) ≡ tally_contribs of_two two_contribs)
    × IsRanked (apportion 5 two_contribs)
    × IsShared 5 9 (5 - floors 5 9 two_contribs) (apportion 5 two_contribs)
apportion-IsShared_example = apportion-IsShared 5 two_contribs of_two (omega arith)

-- A fill of an instrument without recorded contributions moves the global position alone.
unrecorded_fill :
    check_invariant (attribute_fill (set_attributed make_netting 1 7 (pos 3)) 7 (pos 5)) ≡ false
unfolding check_invariant attribute_fill set_attributed key ◌-ℤ◌ ◌+ℤ◌
unrecorded_fill = refl
