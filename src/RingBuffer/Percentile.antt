-- ===== src/RingBuffer/Percentile.antt =====
-- The extremes of RingBuffer::percentile (include/oms/RingBuffer.h).
use delta_assignment.Common.{
  ℕ, suc, ◌-◌, true, false, List, [], ◌∷◌, ◌≡◌, refl, sym, ap, subst, ◌⊎◌, inl, inr, if-both,
  length, get_or, is_empty, insert_by, sort_by, arith,
}
use delta_assignment.Common.Int.{ℤ, pos, ◌≤ℤ◌, ltb_ℤ}
use delta_assignment.Double.{Double}
use delta_assignment.RingBuffer.{RingBuffer, percentile}

abbrev pub IsIn : ℤ → List ℤ → Type 0
IsIn x [] = ⊥
IsIn x (y ∷ ys) = (x ≡ y) ⊎ IsIn x ys

abbrev pub AllAbove : ℤ → List ℤ → Type 0
AllAbove x [] = Unit {0}
AllAbove x (y ∷ ys) = (x ≤ℤ y) × AllAbove x ys

abbrev pub AllBelow : ℤ → List ℤ → Type 0
AllBelow x [] = Unit {0}
AllBelow x (y ∷ ys) = (y ≤ℤ x) × AllBelow x ys

ltb_ℤ→le : (a b : ℤ) → ltb_ℤ a b ≡ true → a ≤ℤ b
ltb_ℤ→le a b h = ground arith

ltb_ℤ→ge : (a b : ℤ) → ltb_ℤ a b ≡ false → b ≤ℤ a
ltb_ℤ→ge a b h = ground arith

pub AllAbove-of : (x : ℤ) (ys : List ℤ) → ((y : ℤ) → IsIn y ys → x ≤ℤ y) → AllAbove x ys
AllAbove-of x [] f = tt
AllAbove-of x (y ∷ ys) f = (f y (inl refl), AllAbove-of x ys (λ z k. f z (inr k)))

pub AllBelow-of : (x : ℤ) (ys : List ℤ) → ((y : ℤ) → IsIn y ys → y ≤ℤ x) → AllBelow x ys
AllBelow-of x [] f = tt
AllBelow-of x (y ∷ ys) f = (f y (inl refl), AllBelow-of x ys (λ z k. f z (inr k)))

AllAbove-IsIn : (x y : ℤ) (ys : List ℤ) → AllAbove x ys → IsIn y ys → x ≤ℤ y
AllAbove-IsIn x y [] h k = elim k [ ]
AllAbove-IsIn x y (z ∷ zs) (h, hs) (inl e) = rw e h
AllAbove-IsIn x y (z ∷ zs) (h, hs) (inr k) = AllAbove-IsIn x y zs hs k

AllAbove-weaken : (x y : ℤ) (ys : List ℤ) → x ≤ℤ y → AllAbove y ys → AllAbove x ys
AllAbove-weaken x y ys h a =
    AllAbove-of x ys (λ z k. let l = AllAbove-IsIn y z ys a k in omega arith)

-- Sorting keeps the samples.
IsIn-insert_by : (x v : ℤ) (xs : List ℤ) → IsIn x (insert_by ltb_ℤ v xs) → (x ≡ v) ⊎ IsIn x xs
IsIn-insert_by x v [] = λ k. k
IsIn-insert_by x v (y ∷ ys) =
    if-both (λ (zs : List ℤ). IsIn x zs → (x ≡ v) ⊎ IsIn x (y ∷ ys)) (ltb_ℤ y v)
      (y ∷ insert_by ltb_ℤ v ys) (v ∷ (y ∷ ys))
      (λ e k. elim k [
        | inl same ↦ inr (inl same)
        | inr more ↦ elim (IsIn-insert_by x v ys more) [
          | inl same ↦ inl same
          | inr there ↦ inr (inr there)
        ]
      ])
      (λ e k. k)

insert_by-IsIn : (x v : ℤ) (xs : List ℤ) → (x ≡ v) ⊎ IsIn x xs → IsIn x (insert_by ltb_ℤ v xs)
insert_by-IsIn x v [] k = k
insert_by-IsIn x v (y ∷ ys) k =
    if-both (λ (zs : List ℤ). IsIn x zs) (ltb_ℤ y v) (y ∷ insert_by ltb_ℤ v ys) (v ∷ (y ∷ ys))
      (λ e. elim k [
        | inl same ↦ inr (insert_by-IsIn x v ys (inl same))
        | inr more ↦ elim more [
          | inl here ↦ inl here
          | inr there ↦ inr (insert_by-IsIn x v ys (inr there))
        ]
      ])
      (λ e. k)

sort_by-IsIn : (x : ℤ) (xs : List ℤ) → IsIn x xs → IsIn x (sort_by ltb_ℤ xs)
sort_by-IsIn x [] k = elim k [ ]
sort_by-IsIn x (y ∷ ys) (inl e) = insert_by-IsIn x y (sort_by ltb_ℤ ys) (inl e)
sort_by-IsIn x (y ∷ ys) (inr k) = insert_by-IsIn x y (sort_by ltb_ℤ ys) (inr (sort_by-IsIn x ys k))

IsIn-sort_by : (x : ℤ) (xs : List ℤ) → IsIn x (sort_by ltb_ℤ xs) → IsIn x xs
IsIn-sort_by x [] k = elim k [ ]
IsIn-sort_by x (y ∷ ys) k = elim (IsIn-insert_by x y (sort_by ltb_ℤ ys) k) [
  | inl same ↦ inl same
  | inr there ↦ inr (IsIn-sort_by x ys there)
]

abbrev IsSorted : List ℤ → Type 0
IsSorted [] = Unit {0}
IsSorted (x ∷ xs) = AllAbove x xs × IsSorted xs

insert_by-IsSorted : (v : ℤ) (xs : List ℤ) → IsSorted xs → IsSorted (insert_by ltb_ℤ v xs)
insert_by-IsSorted v [] h = (tt, tt)
insert_by-IsSorted v (y ∷ ys) (a, h) =
    if-both IsSorted (ltb_ℤ y v) (y ∷ insert_by ltb_ℤ v ys) (v ∷ (y ∷ ys))
      (λ e. (
        AllAbove-of y (insert_by ltb_ℤ v ys) (λ z k. elim (IsIn-insert_by z v ys k) [
          | inl same ↦ rw same (ltb_ℤ→le y v e)
          | inr there ↦ AllAbove-IsIn y z ys a there
        ]),
        insert_by-IsSorted v ys h,
      ))
      (λ e. ((ltb_ℤ→ge y v e, AllAbove-weaken v y ys (ltb_ℤ→ge y v e) a), (a, h)))

sort_by-IsSorted : (xs : List ℤ) → IsSorted (sort_by ltb_ℤ xs)
sort_by-IsSorted [] = tt
sort_by-IsSorted (x ∷ xs) = insert_by-IsSorted x (sort_by ltb_ℤ xs) (sort_by-IsSorted xs)

is_empty-insert_by : (v : ℤ) (xs : List ℤ) → is_empty (insert_by ltb_ℤ v xs) ≡ false
is_empty-insert_by v [] = refl
is_empty-insert_by v (y ∷ ys) =
    if-both (λ (zs : List ℤ). is_empty zs ≡ false) (ltb_ℤ y v) (y ∷ insert_by ltb_ℤ v ys)
      (v ∷ (y ∷ ys)) (λ e. refl) (λ e. refl)

is_empty-sort_by : (xs : List ℤ) → is_empty xs ≡ false → is_empty (sort_by ltb_ℤ xs) ≡ false
is_empty-sort_by [] h = cc
is_empty-sort_by (x ∷ xs) h = is_empty-insert_by x (sort_by ltb_ℤ xs)

abbrev first_of : List ℤ → ℤ
first_of s = get_or s 0 (pos 0)

abbrev last_of : List ℤ → ℤ
last_of s = get_or s (length s - 1) (pos 0)

last_of-tail : (x z : ℤ) (zs : List ℤ) → last_of (x ∷ (z ∷ zs)) ≡ last_of (z ∷ zs)
last_of-tail x z zs =
    let one_on : suc (suc (length zs)) - 1 ≡ suc (suc (length zs) - 1) = omega arith in
    ap (λ (i : ℕ). get_or (x ∷ (z ∷ zs)) i (pos 0)) one_on

first-least :
    (s : List ℤ)
    → is_empty s ≡ false
    → IsSorted s
    → IsIn (first_of s) s × ((y : ℤ) → IsIn y s → first_of s ≤ℤ y)
first-least [] h w = absurd cc
first-least (x ∷ xs) h (a, w) = (
  inl refl,
  λ y k. elim k [ inl e ↦ rw e (omega arith) | inr there ↦ AllAbove-IsIn x y xs a there ],
)

last-greatest :
    (s : List ℤ)
    → is_empty s ≡ false
    → IsSorted s
    → IsIn (last_of s) s × ((y : ℤ) → IsIn y s → y ≤ℤ last_of s)
last-greatest [] h w = absurd cc
last-greatest (x ∷ []) h w =
    (inl refl, λ y k. elim k [ inl e ↦ rw e (omega arith) | inr there ↦ absurd there ])
last-greatest (x ∷ (z ∷ zs)) h (a, w) =
    let (here, above) = last-greatest (z ∷ zs) refl w in
    subst (λ (l : ℤ). IsIn l (x ∷ (z ∷ zs)) × ((y : ℤ) → IsIn y (x ∷ (z ∷ zs)) → y ≤ℤ l))
      (sym (last_of-tail x z zs))
      (
        inr here,
        λ y k. elim k [
          | inl e ↦ rw e (AllAbove-IsIn x (last_of (z ∷ zs)) (z ∷ zs) a here)
          | inr there ↦ above y there
        ],
      )

module _ {W : Type 0} ⦃d : Double W⦄ where
  -- A percentile at 0 or below is a least sample of a ring that is not empty.
  pub percentile-least :
      (p : W) (r : RingBuffer ℤ)
      → is_empty r.buf ≡ false
      → d.le p (d.of_int (pos 0)) ≡ true
      → IsIn (percentile p r) r.buf × ((y : ℤ) → IsIn y r.buf → percentile p r ≤ℤ y)
  unfolding percentile
  percentile-least p r h low =
      let s = sort_by ltb_ℤ r.buf in
      let (here, below) = first-least s (is_empty-sort_by r.buf h) (sort_by-IsSorted r.buf) in
      rw (is_empty-sort_by r.buf h, low)
        (IsIn-sort_by (first_of s) r.buf here, λ y k. below y (sort_by-IsIn y r.buf k))

  -- A percentile at 1 or above, where that is not at 0 or below, is a greatest one.
  pub percentile-greatest :
      (p : W) (r : RingBuffer ℤ)
      → is_empty r.buf ≡ false
      → d.le p (d.of_int (pos 0)) ≡ false
      → d.le (d.of_int (pos 1)) p ≡ true
      → IsIn (percentile p r) r.buf × ((y : ℤ) → IsIn y r.buf → y ≤ℤ percentile p r)
  unfolding percentile
  percentile-greatest p r h low high =
      let s = sort_by ltb_ℤ r.buf in
      let (here, above) = last-greatest s (is_empty-sort_by r.buf h) (sort_by-IsSorted r.buf) in
      rw (is_empty-sort_by r.buf h, low, high)
        (IsIn-sort_by (last_of s) r.buf here, λ y k. above y (sort_by-IsIn y r.buf k))
