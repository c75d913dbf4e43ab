-- ===== src/Metrics/Cycles.antt =====
-- The counters of the rebalance cycles (MetricsCollector::record_cycle, src/Metrics.cpp).
use native.Mathlib.Nat.{mod-eq_of_lt}
use delta_assignment.Common.{
  ℕ, ◌+◌, ◌^◌, ◌≤◌, ◌<◌, Bool, true, false, not, ◌&&◌, List, [], ◌∷◌, Option, ◌≡◌, refl, ◌∙◌,
  Bool-cases, inl, inr, if-both, length, bump, if◌then◌else◌, arith,
}
use delta_assignment.Common.Int.{ℤ, pos, leb_ℤ}
use delta_assignment.Double.{Double}
use delta_assignment.RingBuffer.{count_if}
use delta_assignment.Execution.{MarketDataSource}
use delta_assignment.Metrics.{MetricsCollector, make_metrics, record_cycle}

-- A cycle with a target that was filled.
abbrev pub completes : ℤ × ℤ → Bool
completes (target, filled) = not (leb_ℤ target (pos 0)) && leb_ℤ target filled

bump-lt : (n : ℕ) → n + 1 < 2 ^ 64 → bump n ≡ n + 1
bump-lt n h = mod-eq_of_lt h

at_most_one : (b : Bool) → (if b then 1 else 0) ≤ 1
at_most_one true = omega arith
at_most_one false = omega arith

module _ {W : Type 0} (d : Double W) where
  abbrev pub record_all : List (ℤ × ℤ) → MetricsCollector → MetricsCollector
  record_all [] m = m
  record_all ((target, filled) ∷ ps) m = record_all ps (record_cycle d target filled m)

  record_cycle-cycles :
      (target filled : ℤ) (m : MetricsCollector)
      → (record_cycle d target filled m).cycles ≡ bump m.cycles
  unfolding record_cycle
  record_cycle-cycles target filled m =
      if-both (λ (k : MetricsCollector). k.cycles ≡ bump m.cycles) (leb_ℤ target (pos 0)) _ _
        (λ e. refl) (λ e. refl)

  record_cycle-completed :
      (target filled : ℤ) (m : MetricsCollector)
      → m.completed_cycles + 1 < 2 ^ 64
      → (record_cycle d target filled m).completed_cycles
        ≡ m.completed_cycles + (if completes (target, filled) then 1 else 0)
  unfolding record_cycle
  record_cycle-completed target filled m h = elim (Bool-cases (leb_ℤ target (pos 0))) [
    | inl e ↦ rw e (omega arith)
    | inr e ↦ elim (Bool-cases (leb_ℤ target filled)) [
      | inl f ↦ rw (e, f) (bump-lt m.completed_cycles h)
      | inr f ↦ rw (e, f) (omega arith)
    ]
  ]

  record_all-counts :
      (ps : List (ℤ × ℤ)) (m : MetricsCollector)
      → m.cycles + length ps < 2 ^ 64
      → m.completed_cycles ≤ m.cycles
      → ((record_all ps m).cycles ≡ m.cycles + length ps)
        × ((record_all ps m).completed_cycles ≡ m.completed_cycles + count_if completes ps)
  record_all-counts [] m h k = (omega arith, omega arith)
  record_all-counts ((target, filled) ∷ ps) m h k =
      let m' = record_cycle d target filled m in
      let c : m'.cycles ≡ m.cycles + 1 =
        record_cycle-cycles target filled m ∙ bump-lt m.cycles (omega arith) in
      let f = record_cycle-completed target filled m (omega arith) in
      let small : m'.completed_cycles ≤ m'.cycles =
        (let one = at_most_one (completes (target, filled)) in omega arith) in
      let (cs, fs) = record_all-counts ps m' (omega arith) small in
      (cs ∙ omega arith, fs ∙ omega arith)

  -- Over fewer than 2^64 cycles the collector counts each cycle, and as completed exactly those
  -- with a positive target that was filled.
  pub record_all-completed :
      (mds : Option MarketDataSource) (ps : List (ℤ × ℤ))
      → length ps < 2 ^ 64
      → let m = record_all ps (make_metrics mds) in
        (m.cycles ≡ length ps) × (m.completed_cycles ≡ count_if completes ps)
  record_all-completed mds ps h =
      let (c, f) = record_all-counts ps (make_metrics mds) (omega arith) (omega arith) in
      (c ∙ omega arith, f ∙ omega arith)
