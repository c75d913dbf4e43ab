-- ===== src/Netting/Life.antt =====
-- The engine from its construction on: NettingEngine::check_invariant holds (src/Netting.cpp).
use delta_assignment.Common.{
  ℕ, ◌^◌, ◌<◌, ◌==◌, ltb, true, false, List, [], ◌∷◌, ◌≡◌, refl, sym, ap, subst, ◌∙◌, inl, inr,
  Bool-cases, if-both, contains, add, contains-add_self, is_empty, sort_by, arith,
}
use delta_assignment.Common.Int.{ℤ, pos, ◌+ℤ◌, ◌-ℤ◌, eqb_ℤ, int_laws, zero-+ℤ}
use delta_assignment.Common.Dict.{Dict, find_or, insert}
use delta_assignment.Netting.{
  Contrib, NettingEngine, make_netting, key, set_target, attributed_to, global_position,
  add_attributed, add_global, set_attributed, settle_net, net_all, net_of, contribs_of, NetOrder,
  compute_cycle, gross_of, attribute_fill, sum_attributed, check_all, check_invariant,
}
use delta_assignment.Netting.Sums.{Distinct, AllIn}
use delta_assignment.Netting.Moves.{IsBalanced, add_attributed-Moves, Moves-IsBalanced}
use delta_assignment.Netting.Balance.{compute_cycle-IsBalanced, attribute_fill-IsBalanced}

Distinct-add : (s : ℕ) (ss : List ℕ) → Distinct ss → Distinct (add s ss)
Distinct-add s ss h = if-both Distinct (contains s ss) ss (s ∷ ss) (λ e. h) (λ e. (e, h))

contains-add : (s t : ℕ) (ss : List ℕ) → contains t ss ≡ true → contains t (add s ss) ≡ true
contains-add s t ss h =
    if-both (λ (x : List ℕ). contains t x ≡ true) (contains s ss) ss (s ∷ ss) (λ e. h)
      (λ e. ground arith)

AllIn-grow :
    (ss ss' : List ℕ) (cs : List Contrib)
    → ((t : ℕ) → contains t ss ≡ true → contains t ss' ≡ true)
    → AllIn ss cs
    → AllIn ss' cs
AllIn-grow ss ss' [] f h = tt
AllIn-grow ss ss' (c ∷ cs) f (k, h) = (f c.0 k, AllIn-grow ss ss' cs f h)

-- A strategy without a position adds nothing to the sum.
sum_attributed-add_strategy :
    (m : Dict ℤ) (i s : ℕ) (ss : List ℕ)
    → (contains s ss ≡ false → attributed_to m s i ≡ pos 0)
    → sum_attributed m i (add s ss) ≡ sum_attributed m i ss
sum_attributed-add_strategy m i s ss h =
    if-both (λ (x : List ℕ). sum_attributed m i x ≡ sum_attributed m i ss) (contains s ss) ss
      (s ∷ ss) (λ e. refl)
      (λ e. ap (λ (x : ℤ). x +ℤ sum_attributed m i ss) (h e) ∙ zero-+ℤ (sum_attributed m i ss))

-- The engine with one more strategy.
abbrev with_strategy : NettingEngine → Dict ℤ → List ℕ → ℕ → NettingEngine
with_strategy n targets instruments s = record n {
  targets = targets;
  instruments = instruments;
  strategies = add s n.strategies;
}

still_absent : (s t : ℕ) (ss : List ℕ) → contains t (add s ss) ≡ false → contains t ss ≡ false
still_absent s t ss h = elim (Bool-cases (contains t ss)) [
  | inl e ↦ let k = contains-add s t ss e in cc
  | inr e ↦ e
]

with_strategy-IsBalanced :
    (n : NettingEngine) (targets : Dict ℤ) (instruments : List ℕ) (s : ℕ)
    → IsBalanced n
    → IsBalanced (with_strategy n targets instruments s)
with_strategy-IsBalanced n targets instruments s b = record {
  distinct = Distinct-add s n.strategies b.distinct;
  recorded = λ i.
      AllIn-grow n.strategies (add s n.strategies) (find_or [] i n.contrib)
        (λ t k. contains-add s t n.strategies k) (b.recorded i);
  known = λ t i a k. b.known t i a (still_absent s t n.strategies k);
  sums =
      λ i a. sum_attributed-add_strategy n.attributed i s n.strategies (b.known s i a) ∙ b.sums i a;
}

set_target-IsBalanced :
    (n : NettingEngine) (s i : ℕ) (target : ℤ) → IsBalanced n → IsBalanced (set_target n s i target)
unfolding set_target
set_target-IsBalanced n s i target b =
    with_strategy-IsBalanced n (insert (key s i) target n.targets) (add i n.instruments) s b

make_up : (old q : ℤ) → old +ℤ (q -ℤ old) ≡ q
make_up old q = omega int_laws

set_attributed-IsBalanced :
    (n : NettingEngine) (s i : ℕ) (q : ℤ)
    → i < 2 ^ 16
    → IsBalanced n
    → IsBalanced (set_attributed n s i q)
unfolding set_attributed
set_attributed-IsBalanced n s i q a b =
    let n' = with_strategy n n.targets (add i n.instruments) s in
    let b' = with_strategy-IsBalanced n n.targets (add i n.instruments) s b in
    let old = attributed_to n.attributed s i in
    subst
      (λ (x : ℤ). IsBalanced (record n' {
        attributed = insert (key s i) x n.attributed;
        global = add_global i (q -ℤ old) n.global;
      }))
      (make_up old q)
      (Moves-IsBalanced n' i (q -ℤ old) (add_attributed s i (q -ℤ old) n.attributed)
        (add_attributed-Moves s i (q -ℤ old) n.attributed n'.strategies a b'.distinct
          (contains-add_self s n.strategies))
        b')

abbrev AllSmall : NettingEngine → Type 0
AllSmall n = (i : ℕ) → contains i n.instruments ≡ true → i < 2 ^ 16

AllSmall-add :
    (i : ℕ) (is : List ℕ)
    → i < 2 ^ 16
    → ((j : ℕ) → contains j is ≡ true → j < 2 ^ 16)
    → (j : ℕ) → contains j (add i is) ≡ true
    → j < 2 ^ 16
AllSmall-add i is a h j =
    if-both (λ (x : List ℕ). contains j x ≡ true → j < 2 ^ 16) (contains i is) is (i ∷ is)
      (λ e. h j)
      (λ e k. elim (Bool-cases (i == j)) [
        | inl same ↦ ground arith
        | inr other ↦ h j (rw other at k)
      ])

net_all-instruments :
    (prices : Dict ℤ) (walked insts : List ℕ) (n : NettingEngine)
    → (net_all prices walked insts n).0.instruments ≡ n.instruments
net_all-instruments prices walked [] n = refl
net_all-instruments prices walked (i ∷ insts) n =
    let cs = contribs_of n i walked in
    let Keeps : NettingEngine × List NetOrder → Type 0 = λ r. r.0.instruments ≡ n.instruments in
    net_all-instruments prices walked insts (settle_net prices i cs n).0
    ∙ if-both Keeps (is_empty cs) (n, []) _ (λ e. refl)
        (λ e. if-both Keeps (eqb_ℤ (net_of cs) (pos 0)) _ _ (λ z. refl) (λ z. refl))

-- The calls of the engine, with instruments of 16 bits. A fill is one of an instrument whose last net order
-- recorded contributions that are not all 0.
pub data Step : NettingEngine → NettingEngine → Type 0 where
  target : {n : NettingEngine} (s i : ℕ) (q : ℤ) → i < 2 ^ 16 → Step n (set_target n s i q)
  seed : {n : NettingEngine} (s i : ℕ) (q : ℤ) → i < 2 ^ 16 → Step n (set_attributed n s i q)
  cycle : {n : NettingEngine} (prices : Dict ℤ) → Step n (compute_cycle prices n).0
  fill :
      {n : NettingEngine} (i : ℕ) (q : ℤ)
      → i < 2 ^ 16
      → 0 < gross_of (find_or [] i n.contrib)
      → Step n (attribute_fill n i q)

pub data Life : NettingEngine → Type 0 where
  made : Life make_netting
  next : {n m : NettingEngine} → Life n → Step n m → Life m

make_netting-IsBalanced : IsBalanced make_netting
make_netting-IsBalanced = record {
  distinct = tt;
  recorded = λ i. tt;
  known = λ t i a k. refl;
  sums = λ i a. refl;
}

Step-AllSmall : {n m : NettingEngine} → Step n m → AllSmall n → AllSmall m
unfolding set_target set_attributed compute_cycle attribute_fill
Step-AllSmall (Step.target {n = n} s i q a) small = AllSmall-add i n.instruments a small
Step-AllSmall (Step.seed {n = n} s i q a) small = AllSmall-add i n.instruments a small
Step-AllSmall (Step.cycle {n = n} prices) small =
    subst (λ (is : List ℕ). (j : ℕ) → contains j is ≡ true → j < 2 ^ 16)
      (sym (net_all-instruments prices (sort_by ltb n.strategies) (sort_by ltb n.instruments) n))
      small
Step-AllSmall (Step.fill {n = n} i q a g) small =
    if-both AllSmall (gross_of (find_or [] i n.contrib) == 0) _ _ (λ e. small) (λ e. small)

Step-IsBalanced : {n m : NettingEngine} → Step n m → AllSmall n → IsBalanced n → IsBalanced m
Step-IsBalanced (Step.target {n = n} s i q a) small b = set_target-IsBalanced n s i q b
Step-IsBalanced (Step.seed {n = n} s i q a) small b = set_attributed-IsBalanced n s i q a b
Step-IsBalanced (Step.cycle {n = n} prices) small b = compute_cycle-IsBalanced prices n small b
Step-IsBalanced (Step.fill {n = n} i q a g) small b = attribute_fill-IsBalanced n i q a g b

Life-IsBalanced : {n : NettingEngine} → Life n → AllSmall n × IsBalanced n
Life-IsBalanced Life.made = (λ i k. absurd cc, make_netting-IsBalanced)
Life-IsBalanced (Life.next l s) =
    let (small, b) = Life-IsBalanced l in (Step-AllSmall s small, Step-IsBalanced s small b)

eqb_ℤ_refl : (a b : ℤ) → a ≡ b → eqb_ℤ a b ≡ true
eqb_ℤ_refl a b e = ground arith

check_all-true :
    (n : NettingEngine) (is : List ℕ)
    → ((i : ℕ) → contains i is ≡ true → i < 2 ^ 16)
    → IsBalanced n
    → check_all n is ≡ true
check_all-true n [] small b = refl
check_all-true n (i ∷ is) small b =
    let head : contains i (i ∷ is) ≡ true = ground arith in
    let here =
      eqb_ℤ_refl (sum_attributed n.attributed i n.strategies) (global_position n i)
        (b.sums i (small i head)) in
    rw here (check_all-true n is (λ j k. small j (ground arith)) b)

-- The global position is the sum of the sub-positions: check_invariant answers true for every
-- engine that calls of set_target, set_attributed, compute_cycle and attribute_fill lead to, if
-- instruments have 16 bits and a fill is of an instrument whose last net order recorded
-- contributions that are not all 0.
pub check_invariant-Life : {n : NettingEngine} → Life n → check_invariant n ≡ true
unfolding check_invariant
check_invariant-Life {n = n} l =
    let (small, b) = Life-IsBalanced l in check_all-true n n.instruments small b
