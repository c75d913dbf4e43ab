-- ===== src/Netting/Apportion.antt =====
-- The sum of the shares of a fill (NettingEngine::attribute_fill, src/Netting.cpp).
use native.Mathlib.Nat.{div-add-mod', mul-add, add-mul, suc-mul, mod-lt, le_of_mul-le-mul_right}
use delta_assignment.Common.{
  ℕ, suc, ◌+◌, ◌-◌, ◌*◌, ◌/◌, ◌%◌, ◌≤◌, ◌<◌, ◌==◌, true, List, [], ◌∷◌, length, ◌≡◌, refl, sym, ap,
  ◌∙◌, if-both, contains, insert_by, sort_by, arith,
}
use delta_assignment.Common.Int.{magnitude}
use delta_assignment.Netting.{
  Contrib, Alloc, gross_of, allocate, precedes, sum_base, hand_out, apportion,
}
use delta_assignment.Netting.Sums.{AllIn, Each, SharesIn}

abbrev sum_rem : List Alloc → ℕ
sum_rem [] = 0
sum_rem (a ∷ allocs) = a.rem + sum_rem allocs

length-allocate : (absq total : ℕ) (cs : List Contrib) → length (allocate absq total cs) ≡ length cs
length-allocate absq total [] = refl
length-allocate absq total (c ∷ cs) = ap suc (length-allocate absq total cs)

regroup :
    (b r x y total p q : ℕ) → b * total + r ≡ p → x + y ≡ q → (b * total + x) + (r + y) ≡ p + q
regroup b r x y total p q h k = omega arith

-- The shares and the remainders make the whole.
allocate-whole :
    (absq total : ℕ) (cs : List Contrib)
    → sum_base (allocate absq total cs) * total + sum_rem (allocate absq total cs)
      ≡ absq * gross_of cs
allocate-whole absq total [] = omega arith
allocate-whole absq total (c ∷ cs) =
    let w = magnitude c.1 in
    let rest = allocate absq total cs in
    ap (λ (x : ℕ). x + (absq * w % total + sum_rem rest))
      (add-mul (absq * w / total) (sum_base rest) total)
    ∙ regroup (absq * w / total) (absq * w % total) (sum_base rest * total) (sum_rem rest) total
        (absq * w) (absq * gross_of cs) (div-add-mod' (absq * w) total)
        (allocate-whole absq total cs)
    ∙ sym (mul-add absq w (gross_of cs))

sum_rem_le :
    (absq total : ℕ) (cs : List Contrib)
    → 0 < total
    → sum_rem (allocate absq total cs) ≤ length cs * total
sum_rem_le absq total [] h = omega arith
sum_rem_le absq total (c ∷ cs) h =
    let below = mod-lt (absq * magnitude c.1) h in
    let rest = sum_rem_le absq total cs h in rw (suc-mul (length cs) total) (omega arith)

-- Fewer units are left over than there are contributions, or as many.
left_over_le :
    (absq total b r n : ℕ)
    → 0 < total
    → b * total + r ≡ absq * total
    → r ≤ n * total
    → (b ≤ absq) × (absq - b ≤ n)
left_over_le absq total b r n h e k =
    let below : b ≤ absq = le_of_mul-le-mul_right {m = b} {n = absq} {k = total} (omega arith) h in
    let bound : absq * total ≤ (n + b) * total = rw (add-mul n b total) (omega arith) in
    let few : absq ≤ n + b = le_of_mul-le-mul_right {m = absq} {n = n + b} {k = total} bound h in
    (below, omega arith)

sum_base-insert_by :
    (x : Alloc) (xs : List Alloc) → sum_base (insert_by precedes x xs) ≡ x.base + sum_base xs
sum_base-insert_by x [] = refl
sum_base-insert_by x (y ∷ ys) =
    if-both (λ (zs : List Alloc). sum_base zs ≡ x.base + (y.base + sum_base ys)) (precedes y x) _ _
      (λ e. let k = sum_base-insert_by x ys in omega arith) (λ e. refl)

sum_base-sort_by : (xs : List Alloc) → sum_base (sort_by precedes xs) ≡ sum_base xs
sum_base-sort_by [] = refl
sum_base-sort_by (x ∷ xs) =
    sum_base-insert_by x (sort_by precedes xs) ∙ ap (λ (n : ℕ). x.base + n) (sum_base-sort_by xs)

length-insert_by :
    (x : Alloc) (xs : List Alloc) → length (insert_by precedes x xs) ≡ suc (length xs)
length-insert_by x [] = refl
length-insert_by x (y ∷ ys) =
    if-both (λ (zs : List Alloc). length zs ≡ suc (suc (length ys))) (precedes y x) _ _
      (λ e. ap suc (length-insert_by x ys)) (λ e. refl)

length-sort_by : (xs : List Alloc) → length (sort_by precedes xs) ≡ length xs
length-sort_by [] = refl
length-sort_by (x ∷ xs) = length-insert_by x (sort_by precedes xs) ∙ ap suc (length-sort_by xs)

-- All units are handed out where there are shares enough.
sum_base-hand_out :
    (left : ℕ) (xs : List Alloc)
    → left ≤ length xs
    → sum_base (hand_out left xs) ≡ sum_base xs + left
sum_base-hand_out left [] h = omega arith
sum_base-hand_out left (x ∷ xs) h =
    let rest = sum_base-hand_out (left - 1) xs (omega arith) in
    if-both
      (λ (y : Alloc). y.base + sum_base (hand_out (left - 1) xs) ≡ x.base + sum_base xs + left)
      (0 == left) _ _ (λ e. ground (arith, rest)) (λ e. ground (arith, rest))

-- The shares of a fill add up to the fill, exactly, where the recorded contributions are not all 0.
pub apportion-whole :
    (absq : ℕ) (cs : List Contrib) → 0 < gross_of cs → sum_base (apportion absq cs) ≡ absq
unfolding apportion
apportion-whole absq cs h =
    let allocs = allocate absq (gross_of cs) cs in
    let (below, few) =
      left_over_le absq (gross_of cs) (sum_base allocs) (sum_rem allocs) (length cs) h
        (allocate-whole absq (gross_of cs) cs) (sum_rem_le absq (gross_of cs) cs h) in
    let same = length-sort_by allocs ∙ length-allocate absq (gross_of cs) cs in
    sum_base-hand_out (absq - sum_base allocs) (sort_by precedes allocs) (omega arith)
    ∙ ap (λ (n : ℕ). n + (absq - sum_base allocs)) (sum_base-sort_by allocs)
    ∙ omega arith

Each-insert_by :
    (P : Alloc → Type 0) (x : Alloc) (xs : List Alloc)
    → P x
    → Each P xs
    → Each P (insert_by precedes x xs)
Each-insert_by P x [] p h = (p, tt)
Each-insert_by P x (y ∷ ys) p (q, h) =
    if-both (Each P) (precedes y x) _ _ (λ e. (q, Each-insert_by P x ys p h)) (λ e. (p, (q, h)))

pub Each-sort_by : (P : Alloc → Type 0) (xs : List Alloc) → Each P xs → Each P (sort_by precedes xs)
Each-sort_by P [] h = tt
Each-sort_by P (x ∷ xs) (p, h) = Each-insert_by P x (sort_by precedes xs) p (Each-sort_by P xs h)

Each-hand_out :
    (P Q : Alloc → Type 0) (left : ℕ) (xs : List Alloc)
    → ((a : Alloc) → P a → Q a)
    → ((a : Alloc) → P a → Q (record a { base = a.base + 1 }))
    → Each P xs
    → Each Q (hand_out left xs)
Each-hand_out P Q left [] f g h = tt
Each-hand_out P Q left (x ∷ xs) f g (p, h) =
    (if-both Q (0 == left) _ _ (λ e. f x p) (λ e. g x p), Each-hand_out P Q (left - 1) xs f g h)

-- What holds of the shares before the sort and, for one unit more, after it, holds of all.
Each-apportion :
    (P Q : Alloc → Type 0) (absq : ℕ) (cs : List Contrib)
    → ((a : Alloc) → P a → Q a)
    → ((a : Alloc) → P a → Q (record a { base = a.base + 1 }))
    → Each P (allocate absq (gross_of cs) cs)
    → Each Q (apportion absq cs)
unfolding apportion
Each-apportion P Q absq cs f g h =
    let allocs = allocate absq (gross_of cs) cs in
    Each-hand_out P Q (absq - sum_base allocs) (sort_by precedes allocs) f g
      (Each-sort_by P allocs h)

allocate-SharesIn :
    (absq total : ℕ) (cs : List Contrib) (ss : List ℕ)
    → AllIn ss cs
    → SharesIn ss (allocate absq total cs)
allocate-SharesIn absq total [] ss h = tt
allocate-SharesIn absq total (c ∷ cs) ss (k, h) = (k, allocate-SharesIn absq total cs ss h)

pub apportion-SharesIn :
    (absq : ℕ) (cs : List Contrib) (ss : List ℕ) → AllIn ss cs → SharesIn ss (apportion absq cs)
apportion-SharesIn absq cs ss h =
    let P : Alloc → Type 0 = λ a. contains a.s ss ≡ true in
    Each-apportion P P absq cs (λ (a : Alloc). λ k. k) (λ (a : Alloc). λ k. k)
      (allocate-SharesIn absq (gross_of cs) cs ss h)
