-- ===== src/Execution/Sums.antt =====
-- Sums over an algorithm's children, and the arithmetic of its target (src/ExecutionAlgo.cpp).
use delta_assignment.Common.{
  ℕ, ◌==◌, true, false, [], ◌∷◌, none, some, ◌≡◌, refl, sym, inl, inr, Bool-cases, if◌then◌else◌,
  arith,
}
use delta_assignment.Common.Int.{
  ℤ, pos, ◌+ℤ◌, ◌-ℤ◌, ◌≤ℤ◌, ◌<ℤ◌, leb_ℤ, ltb_ℤ, int_laws, +ℤ-under, parts_of_eq,
}
use delta_assignment.Common.Dict.{Dict, lookup, insert, erase}
use delta_assignment.Execution.{sum_values}

abbrev pub AllNonneg : Dict ℤ → Type 0
AllNonneg [] = Unit {0}
AllNonneg ((id, rem) ∷ m) = (pos 0 ≤ℤ rem) × AllNonneg m

pub ltb_ℤ→lt : (a b : ℤ) → ltb_ℤ a b ≡ true → a <ℤ b
ltb_ℤ→lt a b h = ground arith

pub leb_ℤ→le : (a b : ℤ) → leb_ℤ a b ≡ true → a ≤ℤ b
leb_ℤ→le a b h = ground arith

pub leb_ℤ→gt : (a b : ℤ) → leb_ℤ a b ≡ false → b <ℤ a
leb_ℤ→gt a b h = ground arith

pub ltb_ℤ→ge : (a b : ℤ) → ltb_ℤ a b ≡ false → b ≤ℤ a
ltb_ℤ→ge a b h = ground arith

pub sum_values-nonneg : (m : Dict ℤ) → AllNonneg m → pos 0 ≤ℤ sum_values m
sum_values-nonneg [] h = omega arith
sum_values-nonneg ((id, rem) ∷ m) (h, hs) = let k = sum_values-nonneg m hs in omega int_laws

pub insert-AllNonneg :
    (id : ℕ) (q : ℤ) (m : Dict ℤ) → pos 0 ≤ℤ q → AllNonneg m → AllNonneg (insert id q m)
insert-AllNonneg id q [] h a = (h, tt)
insert-AllNonneg id q ((j, rem) ∷ m) h (a, as') = elim (Bool-cases (id == j)) [
  | inl e ↦ rw e (h, as')
  | inr e ↦ rw e (a, insert-AllNonneg id q m h as')
]

pub erase-AllNonneg : (id : ℕ) (m : Dict ℤ) → AllNonneg m → AllNonneg (erase id m)
erase-AllNonneg id [] a = tt
erase-AllNonneg id ((j, rem) ∷ m) (a, as') = elim (Bool-cases (id == j)) [
  | inl e ↦ rw e (erase-AllNonneg id m as')
  | inr e ↦ rw e (a, erase-AllNonneg id m as')
]

-- A child replaces what stood under its id, if anything did.
pub sum_values-insert_le :
    (id : ℕ) (q : ℤ) (m : Dict ℤ) → AllNonneg m → sum_values (insert id q m) ≤ℤ q +ℤ sum_values m
sum_values-insert_le id q [] a = omega int_laws
sum_values-insert_le id q ((j, rem) ∷ m) (a, as') = elim (Bool-cases (id == j)) [
  | inl e ↦ rw e (omega int_laws)
  | inr e ↦ let k = sum_values-insert_le id q m as' in rw e (omega int_laws)
]

pub sum_step : (rem q x y : ℤ) → x ≡ q +ℤ y → rem +ℤ x ≡ q +ℤ (rem +ℤ y)
sum_step rem q x y h = rw h (omega int_laws)

pub sum_values-insert_new :
    (id : ℕ) (q : ℤ) (m : Dict ℤ)
    → lookup id m ≡ none
    → sum_values (insert id q m) ≡ q +ℤ sum_values m
sum_values-insert_new id q [] n = refl
sum_values-insert_new id q ((j, rem) ∷ m) n = elim (Bool-cases (id == j)) [
  | inl e ↦ absurd (let k = rw e at n in cc)
  | inr e ↦ rw e (
      sum_step rem q (sum_values (insert id q m)) (sum_values m)
        (sum_values-insert_new id q m (rw e at n)))
]

pub sum_values-insert :
    (id : ℕ) (q r : ℤ) (m : Dict ℤ)
    → lookup id m ≡ some r
    → sum_values (insert id q m) +ℤ r ≡ sum_values m +ℤ q
sum_values-insert id q r [] n = absurd cc
sum_values-insert id q r ((j, rem) ∷ m) n = elim (Bool-cases (id == j)) [
  | inl e ↦ let same : rem ≡ r = cc (rw e at n) in rw (e, sym same) (omega int_laws)
  | inr e ↦ rw e (
      +ℤ-under rem (sum_values (insert id q m)) (sum_values m) r q
        (sum_values-insert id q r m (rw e at n)))
]

-- An erased child is in flight no more.
pub sum_values-erase_le :
    (id : ℕ) (m : Dict ℤ) → AllNonneg m → sum_values (erase id m) ≤ℤ sum_values m
sum_values-erase_le id [] a = omega arith
sum_values-erase_le id ((j, rem) ∷ m) (a, as') =
    let k = sum_values-erase_le id m as' in
    elim (Bool-cases (id == j)) [ inl e ↦ rw e (omega int_laws) | inr e ↦ rw e (omega int_laws) ]

pub sum_values-erase :
    (id : ℕ) (r : ℤ) (m : Dict ℤ)
    → AllNonneg m
    → lookup id m ≡ some r
    → sum_values (erase id m) +ℤ r ≤ℤ sum_values m
sum_values-erase id r [] a n = absurd cc
sum_values-erase id r ((j, rem) ∷ m) (a, as') n = elim (Bool-cases (id == j)) [
  | inl e ↦
      let same : rem ≡ r = cc (rw e at n) in
      let k = sum_values-erase_le id m as' in rw (e, sym same) (omega int_laws)
  | inr e ↦ let k = sum_values-erase id r m as' (rw e at n) in rw e (omega (int_laws, k))
]

pub erased :
    (filled q r x y target : ℤ)
    → x +ℤ r ≤ℤ y
    → q ≤ℤ r
    → filled +ℤ y ≤ℤ target
    → filled +ℤ q +ℤ x ≤ℤ target
erased filled q r x y target h k w = omega int_laws

pub fewer : (filled x y target : ℤ) → x ≤ℤ y → filled +ℤ y ≤ℤ target → filled +ℤ x ≤ℤ target
fewer filled x y target h w = omega int_laws

pub left_nonneg : (q r left : ℤ) → q ≤ℤ r → left ≡ r -ℤ q → pos 0 ≤ℤ left
left_nonneg q r left h e = rw e (omega int_laws)

pub shrunk :
    (filled q r left x y target : ℤ)
    → x +ℤ r ≡ y +ℤ left
    → left ≡ r -ℤ q
    → filled +ℤ y ≤ℤ target
    → filled +ℤ q +ℤ x ≤ℤ target
shrunk filled q r left x y target h e w =
    let k : x +ℤ r ≡ y +ℤ (r -ℤ q) = rw e at h in
    let parts = parts_of_eq (x +ℤ r) (y +ℤ (r -ℤ q)) k in omega int_laws

pub not_both : (q : ℤ) → pos 0 <ℤ q → leb_ℤ q (pos 0) ≡ true → ⊥
not_both q h e = ground arith

pub nonneg_of_pos : (q : ℤ) → pos 0 <ℤ q → pos 0 ≤ℤ q
nonneg_of_pos q h = omega int_laws

pub room :
    (target filled open_qty q : ℤ)
    → pos 0 <ℤ q
    → (let r = target -ℤ filled -ℤ open_qty in q ≤ℤ (if ltb_ℤ (pos 0) r then r else pos 0))
    → filled +ℤ open_qty +ℤ q ≤ℤ target
room target filled open_qty q h k =
    let r = target -ℤ filled -ℤ open_qty in
    elim (Bool-cases (ltb_ℤ (pos 0) r)) [
      | inl e ↦ let k' : q ≤ℤ r = rw e at k in omega int_laws
      | inr e ↦ absurd (let k' : q ≤ℤ pos 0 = rw e at k in omega int_laws)
    ]

pub room_exact :
    (target filled open_qty : ℤ)
    → (let r = target -ℤ filled -ℤ open_qty in pos 0 <ℤ (if ltb_ℤ (pos 0) r then r else pos 0))
    → (let r = target -ℤ filled -ℤ open_qty in
        filled +ℤ open_qty +ℤ (if ltb_ℤ (pos 0) r then r else pos 0) ≡ target)
room_exact target filled open_qty h =
    let r = target -ℤ filled -ℤ open_qty in
    elim (Bool-cases (ltb_ℤ (pos 0) r)) [
      | inl e ↦ rw e (omega int_laws)
      | inr e ↦ absurd (let k : pos 0 <ℤ pos 0 = rw e at h in omega arith)
    ]

pub added : (filled q x y : ℤ) → x ≡ q +ℤ y → filled +ℤ x ≡ filled +ℤ y +ℤ q
added filled q x y h = rw h (omega int_laws)

pub more_committed :
    (filled q x y target : ℤ) → x ≤ℤ q +ℤ y → filled +ℤ y +ℤ q ≤ℤ target → filled +ℤ x ≤ℤ target
more_committed filled q x y target h k = omega int_laws
