-- ===== src/Reconciliation/Startup.antt =====
-- What StartupReconciler::reconcile of src/Reconciliation.cpp lets the system start with.
use delta_assignment.Common.{
  contains-sort_by, ℕ, ◌≡◌, refl, sym, ap, subst, ◌∙◌, Bool, true, false, ◌||◌, String, List, [],
  ◌∷◌, some, contains, add, ◌==◌, ==_iff, inl, inr, Bool-cases, if◌then◌else◌, arith,
}
use delta_assignment.Common.Int.{ℤ, pos, leb_ℤ, eqb_ℤ, eqb_ℤ→eq}
use delta_assignment.Common.Dict.{Dict, find_or, lookup, insert, keys, lookup-insert}
use delta_assignment.Reconciliation.{
  ReconAction, StartupScan, decide, adopt, is_stop, scan_one, scan, reconcile, recon_insts, add_all,
  drift_of,
}

not_stopped :
    (same near : Bool) (a b c : ReconAction × String)
    → is_stop c.0 ≡ true
    → is_stop (if same then a else if near then b else c).0 ≡ false
    → (same || near) ≡ true
not_stopped true near a b c s h = refl
not_stopped false true a b c s h = refl
not_stopped false false a b c s h = cc

-- With persisted state an instrument that does not stop the start is within the threshold.
decide-near :
    (threshold l e : ℤ)
    → is_stop (decide threshold true l e).0 ≡ false
    → (eqb_ℤ l e || leb_ℤ (drift_of l e) threshold) ≡ true
unfolding decide
decide-near threshold l e h = not_stopped (eqb_ℤ l e) (leb_ℤ (drift_of l e) threshold) _ _ _ refl h

-- What is adopted without a stop is the exchange's position.
adopt-decide :
    (threshold : ℤ) (kept : Bool) (inst : ℕ) (l e : ℤ) (m : Dict ℤ)
    → is_stop (decide threshold kept l e).0 ≡ false
    → adopt (decide threshold kept l e).0 inst l e m ≡ insert inst e m
unfolding decide
adopt-decide threshold false inst l e m h = refl
adopt-decide threshold true inst l e m h = elim (Bool-cases (eqb_ℤ l e)) [
  | inl same ↦ rw same (ap (λ (q : ℤ). insert inst q m) (eqb_ℤ→eq l e same))
  | inr differs ↦ elim (Bool-cases (leb_ℤ (drift_of l e) threshold)) [
    | inl near ↦ rw (differs, near) refl
    | inr far ↦ let near = decide-near threshold l e h in cc
  ]
]

module _ (threshold : ℤ) (kept : Bool) (at_local at_exchange : Dict ℤ) where
  abbrev scan_on : List ℕ → StartupScan → StartupScan
  scan_on insts acc = scan threshold kept at_local at_exchange insts acc

  abbrev at : ℕ → ℤ
  at inst = find_or (pos 0) inst at_exchange

  -- The decision on an instrument.
  abbrev action_of : ℕ → ReconAction
  action_of inst = (decide threshold kept (find_or (pos 0) inst at_local) (at inst)).0

  abbrev scan_next : ℕ → StartupScan → StartupScan
  scan_next inst acc = scan_one threshold kept inst (find_or (pos 0) inst at_local) (at inst) acc

  -- A stop is never taken back.
  scan-stopping :
      (insts : List ℕ) (acc : StartupScan)
      → acc.stopping ≡ true
      → (scan_on insts acc).stopping ≡ true
  scan-stopping [] acc h = h
  scan-stopping (i ∷ is) acc h =
      scan-stopping is (scan_next i acc) (ap (λ (b : Bool). b || is_stop (action_of i)) h)

  never_stopped :
      (insts : List ℕ) (acc : StartupScan)
      → (scan_on insts acc).stopping ≡ false
      → acc.stopping ≡ false
  never_stopped insts acc h = elim (Bool-cases acc.stopping) [
    | inl e ↦ let s = scan-stopping insts acc e in cc
    | inr e ↦ e
  ]

  -- A scan that does not stop did not stop at its first instrument.
  first_passed :
      (i : ℕ) (is : List ℕ) (acc : StartupScan)
      → (scan_on (i ∷ is) acc).stopping ≡ false
      → is_stop (action_of i) ≡ false
  first_passed i is acc h =
      let s : (acc.stopping || is_stop (action_of i)) ≡ false =
        never_stopped is (scan_next i acc) h in
      ground arith

  taken-scan_next :
      (i j : ℕ) (acc : StartupScan)
      → is_stop (action_of j) ≡ false
      → lookup i (scan_next j acc).taken ≡ (if i == j then some (at j) else lookup i acc.taken)
  taken-scan_next i j acc h =
      ap (lookup i) (adopt-decide threshold kept j (find_or (pos 0) j at_local) (at j) acc.taken h)
      ∙ lookup-insert j i (at j) acc.taken

  scan-keeps :
      (insts : List ℕ) (acc : StartupScan) (i : ℕ)
      → (scan_on insts acc).stopping ≡ false
      → lookup i acc.taken ≡ some (at i)
      → lookup i (scan_on insts acc).taken ≡ some (at i)
  scan-keeps [] acc i h k = k
  scan-keeps (j ∷ js) acc i h k =
      let next = taken-scan_next i j acc (first_passed j js acc h) in
      scan-keeps js (scan_next j acc) i h (
        next ∙ elim (Bool-cases (i == j)) [
          | inl e ↦ rw e (ap (λ (n : ℕ). some (at n)) (sym ((==_iff i j).0 e)))
          | inr e ↦ rw e k
        ])

  scan-adopts :
      (insts : List ℕ) (acc : StartupScan) (i : ℕ)
      → (scan_on insts acc).stopping ≡ false
      → contains i insts ≡ true
      → (lookup i (scan_on insts acc).taken ≡ some (at i)) × (is_stop (action_of i) ≡ false)
  scan-adopts [] acc i h k = cc
  scan-adopts (j ∷ js) acc i h k = elim (Bool-cases (i == j)) [
    | inl e ↦
        let same : i ≡ j = (==_iff i j).0 e in
        let passed = first_passed j js acc h in
        (
          scan-keeps js (scan_next j acc) i h
              (taken-scan_next i j acc passed ∙ rw e (ap (λ (n : ℕ). some (at n)) (sym same))),
          rw same passed,
        )
    | inr e ↦ scan-adopts js (scan_next j acc) i h (ground arith)
  ]

contains-add_member :
    (i j : ℕ) (xs : List ℕ) → ((j == i) || contains i xs) ≡ true → contains i (add j xs) ≡ true
contains-add_member i j xs h = ground arith

contains-add_all :
    (is insts : List ℕ) (i : ℕ)
    → (contains i is || contains i insts) ≡ true
    → contains i (add_all is insts) ≡ true
contains-add_all [] insts i h = h
contains-add_all (j ∷ js) insts i h =
    contains-add_all js (add j insts) i (ground (arith, contains-add_member i j insts))

-- Every instrument of either side is scanned.
contains-recon_insts :
    (at_local at_exchange : Dict ℤ) (i : ℕ)
    → (contains i (keys at_local) || contains i (keys at_exchange)) ≡ true
    → contains i (recon_insts at_local at_exchange) ≡ true
contains-recon_insts at_local at_exchange i h =
    contains-sort_by i (add_all (keys at_exchange) (add_all (keys at_local) []))
    ∙ contains-add_all (keys at_exchange) (add_all (keys at_local) []) i
        (ground (arith, contains-add_all (keys at_local) [] i))

-- If the system may start, an instrument that either side knows is adopted with the exchange's
-- position; and with persisted state the local position is that one, or differs from it by no more
-- than the threshold.
pub reconcile-can_start :
    (threshold : ℤ) (at_local : Dict ℤ) (kept reachable : Bool) (at_exchange : Dict ℤ) (inst : ℕ)
    → (reconcile threshold at_local kept reachable at_exchange).can_start ≡ true
    → (contains inst (keys at_local) || contains inst (keys at_exchange)) ≡ true
    → let l = find_or (pos 0) inst at_local in
      let e = find_or (pos 0) inst at_exchange in
      (lookup inst (reconcile threshold at_local kept reachable at_exchange).adopted ≡ some e)
      × (kept ≡ true → (eqb_ℤ l e || leb_ℤ (drift_of l e) threshold) ≡ true)
unfolding reconcile
reconcile-can_start threshold at_local kept false at_exchange inst h k = cc
reconcile-can_start threshold at_local kept true at_exchange inst h k =
    let start : StartupScan = record { stopping = false; scanned = []; taken = [] } in
    let insts = recon_insts at_local at_exchange in
    let l = find_or (pos 0) inst at_local in
    let e = find_or (pos 0) inst at_exchange in
    let going : (scan threshold kept at_local at_exchange insts start).stopping ≡ false =
      ground arith in
    let (taken, passed) =
      scan-adopts threshold kept at_local at_exchange insts start inst going
        (contains-recon_insts at_local at_exchange inst k) in
    (
      rw going taken,
      λ has.
          decide-near threshold l e
            (subst (λ (b : Bool). is_stop (decide threshold b l e).0 ≡ false) has passed),
    )
