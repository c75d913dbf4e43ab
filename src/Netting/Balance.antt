-- ===== src/Netting/Balance.antt =====
-- The invariant that NettingEngine::check_invariant tests, over the engine's whole life (src/Netting.cpp).
use delta_assignment.Common.{
  contains-sort_by, ℕ, ◌^◌, ◌<◌, ◌==◌, ltb, true, List, [], ◌∷◌, Option, none, some, ◌≡◌, refl, sym,
  ap, subst, ◌∙◌, if-both, contains, is_empty, sort_by, arith,
}
use delta_assignment.Common.Int.{ℤ, pos, ◌-ℤ◌, eqb_ℤ, eqb_ℤ→eq}
use delta_assignment.Common.Dict.{Dict, lookup, find_or, insert, find_or-insert}
use delta_assignment.Netting.{
  Contrib, NettingEngine, NetOrder, key, attributed_to, delta_to, contribs_of, net_of, gross_of,
  transfer, settle_net, net_all, compute_cycle, attribute_fill,
}
use delta_assignment.Netting.Sums.{AllIn}
use delta_assignment.Netting.Moves.{
  IsBalanced, transfer-Moves, book-Moves, Moves-IsBalanced, transfer-IsBalanced,
}

contains-head : (a : ℕ) (xs : List ℕ) → contains a (a ∷ xs) ≡ true
contains-head a xs = ground arith

contains-tail : (a x : ℕ) (xs : List ℕ) → contains a xs ≡ true → contains a (x ∷ xs) ≡ true
contains-tail a x xs h = ground arith

delta_to-AllIn :
    (ss : List ℕ) (m : Dict ℤ) (i s : ℕ) (target : Option ℤ) (rest : List Contrib)
    → contains s ss ≡ true
    → AllIn ss rest
    → AllIn ss (delta_to m i s target rest)
delta_to-AllIn ss m i s none rest k h = h
delta_to-AllIn ss m i s (some target) rest k h =
    if-both (AllIn ss) (eqb_ℤ (target -ℤ attributed_to m s i) (pos 0)) _ _ (λ e. h) (λ e. (k, h))

-- The contributions of a cycle are those of the strategies it walks over.
contribs_of-AllIn :
    (n : NettingEngine) (i : ℕ) (ss walked : List ℕ)
    → ((s : ℕ) → contains s walked ≡ true → contains s ss ≡ true)
    → AllIn ss (contribs_of n i walked)
contribs_of-AllIn n i ss [] h = tt
contribs_of-AllIn n i ss (s ∷ walked) h =
    delta_to-AllIn ss n.attributed i s (lookup (key s i) n.targets) (contribs_of n i walked)
      (h s (contains-head s walked))
      (contribs_of-AllIn n i ss walked (λ t k. h t (contains-tail t s walked k)))

record_contrib-IsBalanced :
    (n : NettingEngine) (i : ℕ) (cs : List Contrib)
    → AllIn n.strategies cs
    → IsBalanced n
    → IsBalanced (record n { contrib = insert i cs n.contrib })
record_contrib-IsBalanced n i cs h b = record {
  distinct = b.distinct;
  recorded = λ j. subst (AllIn n.strategies) (sym (find_or-insert [] i j cs n.contrib)) (
      if-both (AllIn n.strategies) (j == i) cs (find_or [] j n.contrib) (λ e. h)
        (λ e. b.recorded j));
  known = b.known;
  sums = b.sums;
}

settle_net-IsBalanced :
    (prices : Dict ℤ) (i : ℕ) (cs : List Contrib) (n : NettingEngine)
    → i < 2 ^ 16
    → AllIn n.strategies cs
    → IsBalanced n
    → IsBalanced (settle_net prices i cs n).0
      × ((settle_net prices i cs n).0.strategies ≡ n.strategies)
settle_net-IsBalanced prices i cs n a h b =
    let Keeps : NettingEngine × List NetOrder → Type 0 =
      λ r. IsBalanced r.0 × (r.0.strategies ≡ n.strategies) in
    if-both Keeps (is_empty cs) (n, []) _ (λ e. (b, refl))
      (λ e.
        if-both Keeps (eqb_ℤ (net_of cs) (pos 0)) _ _
          (λ z. (
            transfer-IsBalanced n i (net_of cs) _ (transfer i cs n.attributed)
                (eqb_ℤ→eq (net_of cs) (pos 0) z)
                (transfer-Moves i cs n.attributed n.strategies a b.distinct h) b,
            refl,
          ))
          (λ z. (record_contrib-IsBalanced n i cs h b, refl)))

net_all-IsBalanced :
    (prices : Dict ℤ) (walked insts : List ℕ) (n : NettingEngine)
    → ((s : ℕ) → contains s walked ≡ true → contains s n.strategies ≡ true)
    → ((i : ℕ) → contains i insts ≡ true → i < 2 ^ 16)
    → IsBalanced n
    → IsBalanced (net_all prices walked insts n).0
net_all-IsBalanced prices walked [] n h small b = b
net_all-IsBalanced prices walked (i ∷ insts) n h small b =
    let (b', same) =
      settle_net-IsBalanced prices i (contribs_of n i walked) n (small i (contains-head i insts))
        (contribs_of-AllIn n i n.strategies walked h) b in
    net_all-IsBalanced prices walked insts (settle_net prices i (contribs_of n i walked) n).0
      (λ s k. ap (contains s) same ∙ h s k) (λ j k. small j (contains-tail j i insts k)) b'

pub compute_cycle-IsBalanced :
    (prices : Dict ℤ) (n : NettingEngine)
    → ((i : ℕ) → contains i n.instruments ≡ true → i < 2 ^ 16)
    → IsBalanced n
    → IsBalanced (compute_cycle prices n).0
unfolding compute_cycle
compute_cycle-IsBalanced prices n small b =
    net_all-IsBalanced prices (sort_by ltb n.strategies) (sort_by ltb n.instruments) n
      (λ s k. sym (contains-sort_by s n.strategies) ∙ k)
      (λ i k. small i (sym (contains-sort_by i n.instruments) ∙ k)) b

pub attribute_fill-IsBalanced :
    (n : NettingEngine) (i : ℕ) (q : ℤ)
    → i < 2 ^ 16
    → 0 < gross_of (find_or [] i n.contrib)
    → IsBalanced n
    → IsBalanced (attribute_fill n i q)
unfolding attribute_fill
attribute_fill-IsBalanced n i q a g b =
    let cs = find_or [] i n.contrib in
    if-both IsBalanced (gross_of cs == 0) _ _
      (λ e. absurd (let k : gross_of cs ≡ 0 = ground arith in omega arith))
      (λ e.
        Moves-IsBalanced n i q _
          (book-Moves i q cs n.attributed n.strategies a b.distinct (b.recorded i) g) b)
