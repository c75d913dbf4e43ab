-- ===== src/Netting/Moves.antt =====
-- Changes of the attributed positions that keep their sums equal to the global ones (src/Netting.cpp).
use delta_assignment.Common.{
  ℕ, ◌^◌, ◌<◌, ◌==◌, true, false, List, [], ◌∷◌, ◌≡◌, ◌≢◌, refl, sym, ap, subst, ◌∙◌, inl, inr,
  Bool-cases, contains, arith,
}
use delta_assignment.Common.Int.{ℤ, pos, ◌+ℤ◌, neg, magnitude, +ℤ-zero}
use delta_assignment.Common.Dict.{Dict, find_or, find_or-insert_self, find_or-insert_ne}
use delta_assignment.Netting.{
  Contrib, NettingEngine, Alloc, attributed_to, global_position, add_attributed, add_global, net_of,
  gross_of, transfer, signed, apportion, book, sum_attributed,
}
use delta_assignment.Netting.Sums.{
  Distinct, AllIn, SharesIn, attributed_to-add_ne, sum_attributed-add, sum_attributed-add_ne,
  sum_attributed-transfer, sum_attributed-transfer_ne, sum_attributed-book, sum_attributed-book_ne,
}
use delta_assignment.Netting.Apportion.{apportion-whole, apportion-SharesIn}

-- A change of the book by `q` in instrument `i`, by strategies among `ss`.
abbrev pub Moves : ℕ → ℤ → List ℕ → Dict ℤ → Dict ℤ → Type 0
Moves i q ss m m' =
    (sum_attributed m' i ss ≡ sum_attributed m i ss +ℤ q)
    × ((j : ℕ) → j < 2 ^ 16 → i ≢ j → sum_attributed m' j ss ≡ sum_attributed m j ss)
    × ((t j : ℕ) → j < 2 ^ 16 → contains t ss ≡ false → attributed_to m' t j ≡ attributed_to m t j)

not_in : (s t : ℕ) (ss : List ℕ) → contains s ss ≡ true → contains t ss ≡ false → s ≢ t
not_in s t ss h k e =
    let same : contains s ss ≡ contains t ss = ap (λ (u : ℕ). contains u ss) e in cc

pub add_attributed-Moves :
    (s i : ℕ) (q : ℤ) (m : Dict ℤ) (ss : List ℕ)
    → i < 2 ^ 16
    → Distinct ss
    → contains s ss ≡ true
    → Moves i q ss m (add_attributed s i q m)
add_attributed-Moves s i q m ss a d h = (
  sum_attributed-add s i q m ss a d h,
  λ j b k. sum_attributed-add_ne s i j q m ss a b k,
  λ t j b k. attributed_to-add_ne s t i j q m a b (inl (not_in s t ss h k)),
)

transfer-absent :
    (i : ℕ) (cs : List Contrib) (m : Dict ℤ) (ss : List ℕ) (t j : ℕ)
    → i < 2 ^ 16
    → AllIn ss cs
    → j < 2 ^ 16
    → contains t ss ≡ false
    → attributed_to (transfer i cs m) t j ≡ attributed_to m t j
transfer-absent i [] m ss t j a h b k = refl
transfer-absent i (c ∷ cs) m ss t j a (g, h) b k =
    transfer-absent i cs (add_attributed c.0 i c.1 m) ss t j a h b k
    ∙ attributed_to-add_ne c.0 t i j c.1 m a b (inl (not_in c.0 t ss g k))

pub transfer-Moves :
    (i : ℕ) (cs : List Contrib) (m : Dict ℤ) (ss : List ℕ)
    → i < 2 ^ 16
    → Distinct ss
    → AllIn ss cs
    → Moves i (net_of cs) ss m (transfer i cs m)
transfer-Moves i cs m ss a d h = (
  sum_attributed-transfer i cs m ss a d h,
  λ j b k. sum_attributed-transfer_ne i j cs m ss a b k,
  λ t j b k. transfer-absent i cs m ss t j a h b k,
)

book-absent :
    (i : ℕ) (q : ℤ) (allocs : List Alloc) (m : Dict ℤ) (ss : List ℕ) (t j : ℕ)
    → i < 2 ^ 16
    → SharesIn ss allocs
    → j < 2 ^ 16
    → contains t ss ≡ false
    → attributed_to (book i q allocs m) t j ≡ attributed_to m t j
book-absent i q [] m ss t j a h b k = refl
book-absent i q (x ∷ allocs) m ss t j a (g, h) b k =
    book-absent i q allocs (add_attributed x.s i (signed q x.base) m) ss t j a h b k
    ∙ attributed_to-add_ne x.s t i j (signed q x.base) m a b (inl (not_in x.s t ss g k))

signed-magnitude : (q : ℤ) → signed q (magnitude q) ≡ q
unfolding neg
signed-magnitude q = ground arith

pub book-Moves :
    (i : ℕ) (q : ℤ) (cs : List Contrib) (m : Dict ℤ) (ss : List ℕ)
    → i < 2 ^ 16
    → Distinct ss
    → AllIn ss cs
    → 0 < gross_of cs
    → Moves i q ss m (book i q (apportion (magnitude q) cs) m)
book-Moves i q cs m ss a d h g =
    let shares = apportion (magnitude q) cs in
    let in_ss = apportion-SharesIn (magnitude q) cs ss h in
    (
      sum_attributed-book i q shares m ss a d in_ss
          ∙ ap (λ (x : ℤ). sum_attributed m i ss +ℤ x)
              (ap (signed q) (apportion-whole (magnitude q) cs g) ∙ signed-magnitude q),
      λ j b k. sum_attributed-book_ne i j q shares m ss a b k,
      λ t j b k. book-absent i q shares m ss t j a in_ss b k,
    )

-- The strategies are distinct, the recorded contributions are theirs, no other strategy has a position, and
-- an instrument's attributed positions sum to its global one.
pub record IsBalanced (n : NettingEngine) : Type 0 where
  pub distinct : Distinct n.strategies
  pub recorded : (i : ℕ) → AllIn n.strategies (find_or [] i n.contrib)
  pub known :
      (t i : ℕ)
      → i < 2 ^ 16
      → contains t n.strategies ≡ false
      → attributed_to n.attributed t i ≡ pos 0
  pub sums : (i : ℕ) → i < 2 ^ 16 → sum_attributed n.attributed i n.strategies ≡ global_position n i

Moves-sums :
    (i : ℕ) (q : ℤ) (ss : List ℕ) (m m' g g' : Dict ℤ)
    → Moves i q ss m m'
    → find_or (pos 0) i g' ≡ find_or (pos 0) i g +ℤ q
    → ((j : ℕ) → i ≢ j → find_or (pos 0) j g' ≡ find_or (pos 0) j g)
    → ((j : ℕ) → j < 2 ^ 16 → sum_attributed m j ss ≡ find_or (pos 0) j g)
    → (j : ℕ) → j < 2 ^ 16
    → sum_attributed m' j ss ≡ find_or (pos 0) j g'
Moves-sums i q ss m m' g g' (here, others, absent) g_here g_others h j a =
    elim (Bool-cases (i == j)) [
      | inl e ↦
          let same : i ≡ j = ground arith in
          let small : i < 2 ^ 16 = rw same a in
          let at_i : sum_attributed m' i ss ≡ find_or (pos 0) i g' =
            here ∙ ap (λ (x : ℤ). x +ℤ q) (h i small) ∙ sym g_here in
          subst (λ (k : ℕ). sum_attributed m' k ss ≡ find_or (pos 0) k g') same at_i
      | inr e ↦
          let other : i ≢ j = ground arith in others j a other ∙ h j a ∙ sym (g_others j other)
    ]

-- What is booked in the book and, by as much, in the global position keeps the balance.
pub Moves-IsBalanced :
    (n : NettingEngine) (i : ℕ) (q : ℤ) (m : Dict ℤ)
    → Moves i q n.strategies n.attributed m
    → IsBalanced n
    → IsBalanced (record n { attributed = m; global = add_global i q n.global })
Moves-IsBalanced n i q m moves b = record {
  distinct = b.distinct;
  recorded = b.recorded;
  known = λ t j a k. moves.2 t j a k ∙ b.known t j a k;
  sums =
      Moves-sums i q n.strategies n.attributed m n.global (add_global i q n.global) moves
        (find_or-insert_self (pos 0) i (find_or (pos 0) i n.global +ℤ q) n.global)
        (λ (j : ℕ). λ k.
          find_or-insert_ne (pos 0) i j (find_or (pos 0) i n.global +ℤ q) n.global (λ e. k (sym e)))
        b.sums;
}

-- So does what is booked among the strategies alone, if it sums to 0.
pub transfer-IsBalanced :
    (n : NettingEngine) (i : ℕ) (q saved : ℤ) (m : Dict ℤ)
    → q ≡ pos 0
    → Moves i q n.strategies n.attributed m
    → IsBalanced n
    → IsBalanced (record n { saved_notional = saved; attributed = m })
transfer-IsBalanced n i q saved m z moves b =
    let kept : find_or (pos 0) i n.global ≡ find_or (pos 0) i n.global +ℤ q =
      rw z (sym (+ℤ-zero (find_or (pos 0) i n.global))) in
    record {
      distinct = b.distinct;
      recorded = b.recorded;
      known = λ t j a k. moves.2 t j a k ∙ b.known t j a k;
      sums =
          Moves-sums i q n.strategies n.attributed m n.global n.global moves kept
            (λ (j : ℕ). λ k. refl) b.sums;
    }
