-- ===== src/Netting/Sums.antt =====
-- Sums of attributed positions over the strategies (src/Netting.cpp).
use delta_assignment.Common.{
  ℕ, ◌+◌, ◌*◌, ◌^◌, ◌<◌, ◌==◌, true, false, List, [], ◌∷◌, ◌≡◌, ◌≢◌, refl, sym, ap, subst, ◌∙◌, ◌⊎◌,
  inl, inr, Bool-cases, contains, arith,
}
use delta_assignment.Common.Bits.{bit_or-shift}
use delta_assignment.Common.Int.{ℤ, pos, ◌+ℤ◌, ltb_ℤ, int_laws, +ℤ_assoc, +ℤ-zero}
use delta_assignment.Common.Dict.{Dict, find_or-insert_self, find_or-insert_ne}
use delta_assignment.Netting.{
  Contrib, Alloc, key, attributed_to, add_attributed, net_of, transfer, sum_base, signed, book,
  sum_attributed,
}

pub key_inj : (s t i j : ℕ) → i < 2 ^ 16 → j < 2 ^ 16 → key s i ≡ key t j → (s ≡ t) × (i ≡ j)
unfolding key
key_inj s t i j a b h =
    let k : s * 2 ^ 16 + i ≡ t * 2 ^ 16 + j =
      sym (bit_or-shift 16 s i a) ∙ h ∙ bit_or-shift 16 t j b in
    (omega arith, omega arith)

abbrev pub Distinct : List ℕ → Type 0
Distinct [] = Unit {0}
Distinct (x ∷ xs) = (contains x xs ≡ false) × Distinct xs

pub attributed_to-add_self :
    (s i : ℕ) (q : ℤ) (m : Dict ℤ)
    → attributed_to (add_attributed s i q m) s i ≡ attributed_to m s i +ℤ q
attributed_to-add_self s i q m = find_or-insert_self (pos 0) (key s i) (attributed_to m s i +ℤ q) m

pub attributed_to-add_ne :
    (s t i j : ℕ) (q : ℤ) (m : Dict ℤ)
    → i < 2 ^ 16
    → j < 2 ^ 16
    → (s ≢ t) ⊎ (i ≢ j)
    → attributed_to (add_attributed s i q m) t j ≡ attributed_to m t j
attributed_to-add_ne s t i j q m a b h =
    find_or-insert_ne (pos 0) (key s i) (key t j) (attributed_to m s i +ℤ q) m (λ e.
      let (same_s, same_i) = key_inj s t i j a b (sym e) in
      elim h [ inl k ↦ k same_s | inr k ↦ k same_i ])

-- Another instrument's sum stays.
pub sum_attributed-add_ne :
    (s i j : ℕ) (q : ℤ) (m : Dict ℤ) (ss : List ℕ)
    → i < 2 ^ 16
    → j < 2 ^ 16
    → i ≢ j
    → sum_attributed (add_attributed s i q m) j ss ≡ sum_attributed m j ss
sum_attributed-add_ne s i j q m [] a b h = refl
sum_attributed-add_ne s i j q m (t ∷ ss) a b h =
    rw (attributed_to-add_ne s t i j q m a b (inr h), sum_attributed-add_ne s i j q m ss a b h) refl

-- A strategy that is not summed changes nothing.
sum_attributed-add_absent :
    (s i : ℕ) (q : ℤ) (m : Dict ℤ) (ss : List ℕ)
    → i < 2 ^ 16
    → contains s ss ≡ false
    → sum_attributed (add_attributed s i q m) i ss ≡ sum_attributed m i ss
sum_attributed-add_absent s i q m [] a h = refl
sum_attributed-add_absent s i q m (t ∷ ss) a h =
    let other : s ≢ t = ground arith in
    rw
      (
        attributed_to-add_ne s t i i q m a a (inl other),
        sum_attributed-add_absent s i q m ss a (ground arith),
      )
      refl

swap_last : (x q y : ℤ) → (x +ℤ q) +ℤ y ≡ (x +ℤ y) +ℤ q
swap_last x q y = omega int_laws

-- What is booked for a strategy among those that are summed is added to the sum.
pub sum_attributed-add :
    (s i : ℕ) (q : ℤ) (m : Dict ℤ) (ss : List ℕ)
    → i < 2 ^ 16
    → Distinct ss
    → contains s ss ≡ true
    → sum_attributed (add_attributed s i q m) i ss ≡ sum_attributed m i ss +ℤ q
sum_attributed-add s i q m [] a d h = absurd cc
sum_attributed-add s i q m (t ∷ ss) a (new, d) h = elim (Bool-cases (t == s)) [
  | inl e ↦
      let same : s ≡ t = ground arith in
      let first : attributed_to (add_attributed s i q m) t i ≡ attributed_to m t i +ℤ q =
        subst (λ (u : ℕ). attributed_to (add_attributed s i q m) u i ≡ attributed_to m u i +ℤ q)
          same (attributed_to-add_self s i q m) in
      let absent : contains s ss ≡ false = ap (λ (u : ℕ). contains u ss) same ∙ new in
      rw (first, sum_attributed-add_absent s i q m ss a absent)
        (swap_last (attributed_to m t i) q (sum_attributed m i ss))
  | inr e ↦
      let other : s ≢ t = ground arith in
      rw
        (
          attributed_to-add_ne s t i i q m a a (inl other),
          sum_attributed-add s i q m ss a d (ground arith),
        )
        (sym (+ℤ_assoc (attributed_to m t i) (sum_attributed m i ss) q))
]

-- Contributions of strategies among those that are summed.
abbrev pub AllIn : List ℕ → List Contrib → Type 0
AllIn ss [] = Unit {0}
AllIn ss (c ∷ cs) = (contains c.0 ss ≡ true) × AllIn ss cs

pub sum_attributed-transfer :
    (i : ℕ) (cs : List Contrib) (m : Dict ℤ) (ss : List ℕ)
    → i < 2 ^ 16
    → Distinct ss
    → AllIn ss cs
    → sum_attributed (transfer i cs m) i ss ≡ sum_attributed m i ss +ℤ net_of cs
sum_attributed-transfer i [] m ss a d h = sym (+ℤ-zero (sum_attributed m i ss))
sum_attributed-transfer i (c ∷ cs) m ss a d (k, h) =
    sum_attributed-transfer i cs (add_attributed c.0 i c.1 m) ss a d h
    ∙ ap (λ (x : ℤ). x +ℤ net_of cs) (sum_attributed-add c.0 i c.1 m ss a d k)
    ∙ +ℤ_assoc (sum_attributed m i ss) c.1 (net_of cs)

pub sum_attributed-transfer_ne :
    (i j : ℕ) (cs : List Contrib) (m : Dict ℤ) (ss : List ℕ)
    → i < 2 ^ 16
    → j < 2 ^ 16
    → i ≢ j
    → sum_attributed (transfer i cs m) j ss ≡ sum_attributed m j ss
sum_attributed-transfer_ne i j [] m ss a b h = refl
sum_attributed-transfer_ne i j (c ∷ cs) m ss a b h =
    sum_attributed-transfer_ne i j cs (add_attributed c.0 i c.1 m) ss a b h
    ∙ sum_attributed-add_ne c.0 i j c.1 m ss a b h

signed-add : (q : ℤ) (x y : ℕ) → signed q x +ℤ signed q y ≡ signed q (x + y)
signed-add q x y = elim (Bool-cases (ltb_ℤ q (pos 0))) [
  | inl e ↦ rw e (omega int_laws)
  | inr e ↦ rw e (omega int_laws)
]

signed-zero : (q : ℤ) → signed q 0 ≡ pos 0
signed-zero q = elim (Bool-cases (ltb_ℤ q (pos 0))) [
  | inl e ↦ rw e (omega int_laws)
  | inr e ↦ rw e refl
]

-- A property of every share.
abbrev pub Each : (Alloc → Type 0) → List Alloc → Type 0
Each P [] = Unit {0}
Each P (a ∷ allocs) = P a × Each P allocs

abbrev pub SharesIn : List ℕ → List Alloc → Type 0
SharesIn ss = Each (λ (a : Alloc). contains a.s ss ≡ true)

pub sum_attributed-book :
    (i : ℕ) (q : ℤ) (allocs : List Alloc) (m : Dict ℤ) (ss : List ℕ)
    → i < 2 ^ 16
    → Distinct ss
    → SharesIn ss allocs
    → sum_attributed (book i q allocs m) i ss ≡ sum_attributed m i ss +ℤ signed q (sum_base allocs)
sum_attributed-book i q [] m ss a d h =
    sym
      (ap (λ (x : ℤ). sum_attributed m i ss +ℤ x) (signed-zero q) ∙ +ℤ-zero (sum_attributed m i ss))
sum_attributed-book i q (x ∷ allocs) m ss a d (k, h) =
    sum_attributed-book i q allocs (add_attributed x.s i (signed q x.base) m) ss a d h
    ∙ ap (λ (y : ℤ). y +ℤ signed q (sum_base allocs))
        (sum_attributed-add x.s i (signed q x.base) m ss a d k)
    ∙ +ℤ_assoc (sum_attributed m i ss) (signed q x.base) (signed q (sum_base allocs))
    ∙ ap (λ (y : ℤ). sum_attributed m i ss +ℤ y) (signed-add q x.base (sum_base allocs))

pub sum_attributed-book_ne :
    (i j : ℕ) (q : ℤ) (allocs : List Alloc) (m : Dict ℤ) (ss : List ℕ)
    → i < 2 ^ 16
    → j < 2 ^ 16
    → i ≢ j
    → sum_attributed (book i q allocs m) j ss ≡ sum_attributed m j ss
sum_attributed-book_ne i j q [] m ss a b h = refl
sum_attributed-book_ne i j q (x ∷ allocs) m ss a b h =
    sum_attributed-book_ne i j q allocs (add_attributed x.s i (signed q x.base) m) ss a b h
    ∙ sum_attributed-add_ne x.s i j (signed q x.base) m ss a b h
