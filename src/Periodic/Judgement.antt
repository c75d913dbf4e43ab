-- ===== src/Periodic/Judgement.antt =====
-- How a cycle of PeriodicReconciler::reconcile (src/Reconciliation.cpp) judges each instrument.
use delta_assignment.Common.{
  ℕ, ltb, sort_by, bump, ◌≡◌, refl, sym, ap, subst, ◌∙◌, ◌⊎◌, inl, inr, Bool, true, false, List, [],
  ◌∷◌, Bool-cases, if-both, if◌then◌else◌, arith,
}
use delta_assignment.Common.Int.{ℤ, pos, neg, ◌+ℤ◌, ◌-ℤ◌, leb_ℤ, ltb_ℤ, ◌≤ℤ◌, ◌<ℤ◌, int_laws}
use delta_assignment.Common.Dict.{Dict, find_or, keys}
use delta_assignment.OrderManager.Types.{Env}
use delta_assignment.OrderManager.State.{position, instruments}
use delta_assignment.OrderManager.Unfilled.{submit-position}
use delta_assignment.Reconciliation.{add_all}
use delta_assignment.Periodic.{
  PeriodicReconConfig, PeriodicReconciler, Reported, DriftAction, DriftRecord, size_of, corrective,
  act, set_persist, cycle, drift_at, exchange_positions, reconcile_now,
}

-- Two positions that differ by no more than `t`, and by more.
abbrev pub Within : ℤ → ℤ → ℤ → Type 0
Within t e o = (e ≤ℤ o +ℤ t) × (o ≤ℤ e +ℤ t)

abbrev pub Beyond : ℤ → ℤ → ℤ → Type 0
Beyond t e o = (o +ℤ t <ℤ e) ⊎ (e +ℤ t <ℤ o)

size_of-Within : (t e o : ℤ) → leb_ℤ (size_of (e -ℤ o)) t ≡ true → Within t e o
size_of-Within t e o h = elim (Bool-cases (ltb_ℤ (e -ℤ o) (pos 0))) [
  | inl n ↦
      let k : leb_ℤ (neg (e -ℤ o)) t ≡ true = rw n at h in
      let k' : neg (e -ℤ o) ≤ℤ t = ground arith in
      let m : e -ℤ o <ℤ pos 0 = ground arith in (omega int_laws, omega int_laws)
  | inr n ↦
      let k : leb_ℤ (e -ℤ o) t ≡ true = rw n at h in
      let k' : e -ℤ o ≤ℤ t = ground arith in
      let m : pos 0 ≤ℤ e -ℤ o = ground arith in (omega int_laws, omega int_laws)
]

size_of-Beyond : (t e o : ℤ) → leb_ℤ (size_of (e -ℤ o)) t ≡ false → Beyond t e o
size_of-Beyond t e o h = elim (Bool-cases (ltb_ℤ (e -ℤ o) (pos 0))) [
  | inl n ↦
      let k : leb_ℤ (neg (e -ℤ o)) t ≡ false = rw n at h in
      let k' : t <ℤ neg (e -ℤ o) = ground arith in inr (omega int_laws)
  | inr n ↦
      let k : leb_ℤ (e -ℤ o) t ≡ false = rw n at h in
      let k' : t <ℤ e -ℤ o = ground arith in inl (omega int_laws)
]

abbrev pub is_halting : DriftAction → Bool
is_halting DriftAction.halting = true
is_halting _ = false

-- The action that fits the position `e` at the exchanges and the position `o` of the manager.
abbrev pub IsJudged : PeriodicReconConfig → ℤ → ℤ → DriftAction → Type 0
IsJudged cfg e o DriftAction.in_sync = Within cfg.reconcile_threshold e o
IsJudged cfg e o DriftAction.pending_confirm = Beyond cfg.reconcile_threshold e o
IsJudged cfg e o DriftAction.auto_healed =
    Beyond cfg.reconcile_threshold e o × Within cfg.auto_heal_band e o
IsJudged cfg e o DriftAction.halting =
    Beyond cfg.reconcile_threshold e o × Beyond cfg.auto_heal_band e o

-- The report on a list of instruments and whether the system is halted after it: one line for each, in
-- their order, up to the first that halts.
abbrev pub IsScan :
    PeriodicReconConfig → (ℕ → ℤ) → (ℕ → ℤ) → List ℕ → List DriftRecord → Bool → Type 0
IsScan cfg there here [] [] halted = halted ≡ false
IsScan cfg there here [] (l ∷ ls) halted = ⊥
IsScan cfg there here (i ∷ is) [] halted = ⊥
IsScan cfg there here (i ∷ is) (l ∷ ls) halted =
    (l.inst ≡ i)
    × (l.at_exchange ≡ there i)
    × (l.oms ≡ here i)
    × IsJudged cfg (there i) (here i) l.action
    × (if is_halting l.action
        then (ls ≡ []) × (halted ≡ true)
        else IsScan cfg there here is ls halted)

act-IsJudged :
    (cfg : PeriodicReconConfig) (env : Env) (reported : Reported) (inst : ℕ) (e o : ℤ)
    (r : PeriodicReconciler)
    → IsJudged cfg e o (act cfg env reported inst (e -ℤ o) r).1
unfolding act
act-IsJudged cfg env reported inst e o r =
    let J : PeriodicReconciler × DriftAction → Type 0 = λ d. IsJudged cfg e o d.1 in
    if-both J (leb_ℤ (size_of (e -ℤ o)) cfg.reconcile_threshold) _ _
      (λ h. size_of-Within cfg.reconcile_threshold e o h)
      (λ h.
        let far = size_of-Beyond cfg.reconcile_threshold e o h in
        if-both J (ltb_ℤ (find_or (pos 0) inst r.persist +ℤ pos 1) cfg.persist_cycles) _ _
          (λ k. far)
          (λ k.
            if-both J (leb_ℤ (size_of (e -ℤ o)) cfg.auto_heal_band) _ _
              (λ m. (far, size_of-Within cfg.auto_heal_band e o m))
              (λ m. (far, size_of-Beyond cfg.auto_heal_band e o m))))

-- Only the halting action halts, and no action moves a position.
act-halted :
    (cfg : PeriodicReconConfig) (env : Env) (reported : Reported) (inst : ℕ) (drift : ℤ)
    (r : PeriodicReconciler)
    → r.halted ≡ false
    → let d = act cfg env reported inst drift r in
      (d.0.halted ≡ is_halting d.1) × ((j : ℕ) → position d.0.om j ≡ position r.om j)
unfolding act
act-halted cfg env reported inst drift r h =
    let K : PeriodicReconciler × DriftAction → Type 0 =
      λ d. (d.0.halted ≡ is_halting d.1) × ((j : ℕ) → position d.0.om j ≡ position r.om j) in
    if-both K (leb_ℤ (size_of drift) cfg.reconcile_threshold) _ _ (λ a. (h, (λ j. refl)))
      (λ a.
        if-both K (ltb_ℤ (find_or (pos 0) inst r.persist +ℤ pos 1) cfg.persist_cycles) _ _
          (λ b. (h, (λ j. refl)))
          (λ b.
            if-both K (leb_ℤ (size_of drift) cfg.auto_heal_band) _
              (
                record (set_persist inst (pos 0) r) { halted = true; halts = bump r.halts },
                DriftAction.halting,
              )
              (λ c. (h, (λ j. submit-position env r.om (corrective env reported inst drift) j)))
              (λ c. (refl, (λ j. refl)))))

cycle-IsScan :
    (cfg : PeriodicReconConfig) (env : Env) (reported : Reported) (now : ℤ) (ex_pos : Dict ℤ)
    (here : ℕ → ℤ) (insts : List ℕ) (r : PeriodicReconciler)
    → r.halted ≡ false
    → ((j : ℕ) → (position r.om j).net ≡ here j)
    → let done = cycle cfg env reported now ex_pos insts r in
      IsScan cfg (λ i. find_or (pos 0) i ex_pos) here insts done.1 done.0.halted
unfolding cycle
cycle-IsScan cfg env reported now ex_pos here [] r h same = h
cycle-IsScan cfg env reported now ex_pos here (i ∷ is) r h same =
    let there = λ (j : ℕ). find_or (pos 0) j ex_pos in
    let acted = act cfg env reported i (drift_at ex_pos r.om i) r in
    let (halts, still) = act-halted cfg env reported i (drift_at ex_pos r.om i) r h in
    let judged : IsJudged cfg (there i) (here i) acted.1 =
      subst (λ (o : ℤ). IsJudged cfg (there i) o acted.1) (same i)
        (act-IsJudged cfg env reported i (there i) (position r.om i).net r) in
    elim (Bool-cases acted.0.halted) [
      | inl e ↦ rw (e, sym halts ∙ e) (refl, refl, same i, judged, (refl, e))
      | inr e ↦
          rw (e, sym halts ∙ e)
            (
              refl,
              refl,
              same i,
              judged,
              cycle-IsScan cfg env reported now ex_pos here is acted.0 e
                  (λ j. ap (λ p. p.net) (still j) ∙ same j),
            )
    ]

-- A cycle of a system that is not halted reports on each instrument that the exchanges or the
-- manager know, up to the first that halts, and is halted after it exactly if there is one. A line
-- has the position at the exchanges and the manager's filled position, and its action fits them: in
-- sync exactly where they differ by no more than the threshold; healed only within the heal band,
-- and halted only beyond it.
pub reconcile_now-IsScan :
    (cfg : PeriodicReconConfig) (env : Env) (reported : Reported) (now : ℤ) (r : PeriodicReconciler)
    → r.halted ≡ false
    → let done = reconcile_now cfg env reported now r in
      let ex_pos = exchange_positions env reported in
      IsScan cfg
        (λ i. find_or (pos 0) i ex_pos)
        (λ i. (position r.om i).net)
        (sort_by ltb (add_all (instruments r.om) (add_all (keys ex_pos) [])))
        done.1
        done.0.halted
unfolding reconcile_now
reconcile_now-IsScan cfg env reported now r h =
    let ex_pos = exchange_positions env reported in
    let insts = sort_by ltb (add_all (instruments r.om) (add_all (keys ex_pos) [])) in
    let here = λ (i : ℕ). (position r.om i).net in
    if-both
      (λ (d : PeriodicReconciler × List DriftRecord).
        IsScan cfg (λ i. find_or (pos 0) i ex_pos) here insts d.1 d.0.halted)
      r.halted (r, []) (cycle cfg env reported now ex_pos insts r) (λ e. absurd cc)
      (λ e. cycle-IsScan cfg env reported now ex_pos here insts r h (λ j. refl))
