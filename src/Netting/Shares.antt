-- ===== src/Netting/Shares.antt =====
-- Who gets which share of a fill (NettingEngine::attribute_fill, src/Netting.cpp).
use delta_assignment.Common.{
  ℕ, suc, ◌+◌, ◌-◌, ◌*◌, ◌/◌, ◌%◌, ◌≤◌, ◌<◌, ◌==◌, Bool, true, false, List, [], ◌∷◌, ◌≡◌, refl, ap,
  subst, ◌∙◌, ◌⊎◌, if-both, count-swap, insert_by, sort_by, if◌then◌else◌, arith,
}
use delta_assignment.Common.Int.{magnitude}
use delta_assignment.Netting.{
  Contrib, Alloc, gross_of, allocate, precedes, sum_base, hand_out, apportion,
}
use delta_assignment.Netting.Sums.{Each}
use delta_assignment.Netting.Apportion.{apportion-whole, Each-sort_by}

-- How many shares, and how many contributions, have a strategy and a weight that pass a test.
abbrev pub tally : (ℕ → ℕ → Bool) → List Alloc → ℕ
tally p [] = 0
tally p (a ∷ allocs) = if p a.s a.weight then suc (tally p allocs) else tally p allocs

abbrev pub tally_contribs : (ℕ → ℕ → Bool) → List Contrib → ℕ
tally_contribs p [] = 0
tally_contribs p (c ∷ cs) =
    if p c.0 (magnitude c.1) then suc (tally_contribs p cs) else tally_contribs p cs

-- The proportional shares of the contributions, rounded down, together.
abbrev pub floors : ℕ → ℕ → List Contrib → ℕ
floors absq total [] = 0
floors absq total (c ∷ cs) = absq * magnitude c.1 / total + floors absq total cs

-- A share that comes no later: the larger remainder first, then the larger weight, then the lower strategy.
abbrev pub Before : Alloc → Alloc → Type 0
Before a b =
    (b.rem < a.rem)
    ⊎ ((a.rem ≡ b.rem) × ((b.weight < a.weight) ⊎ ((a.weight ≡ b.weight) × (a.s ≤ b.s))))

abbrev pub Heads : Alloc → List Alloc → Type 0
Heads a [] = Unit {0}
Heads a (b ∷ allocs) = Before a b

abbrev pub IsRanked : List Alloc → Type 0
IsRanked [] = Unit {0}
IsRanked (a ∷ allocs) = Heads a allocs × IsRanked allocs

-- Each share is the proportional one rounded down, and one unit more for the first `left`.
abbrev pub IsShared : ℕ → ℕ → ℕ → List Alloc → Type 0
IsShared absq total left [] = Unit {0}
IsShared absq total left (a ∷ allocs) =
    (a.base ≡ absq * a.weight / total + (if 0 == left then 0 else 1))
    × (a.rem ≡ absq * a.weight % total)
    × IsShared absq total (left - 1) allocs

abbrev IsFloor : ℕ → ℕ → Alloc → Type 0
IsFloor absq total a = (a.base ≡ absq * a.weight / total) × (a.rem ≡ absq * a.weight % total)

allocate-IsFloor :
    (absq total : ℕ) (cs : List Contrib) → Each (IsFloor absq total) (allocate absq total cs)
allocate-IsFloor absq total [] = tt
allocate-IsFloor absq total (c ∷ cs) = ((refl, refl), allocate-IsFloor absq total cs)

sum_base-allocate :
    (absq total : ℕ) (cs : List Contrib) → sum_base (allocate absq total cs) ≡ floors absq total cs
sum_base-allocate absq total [] = refl
sum_base-allocate absq total (c ∷ cs) =
    ap (λ (n : ℕ). absq * magnitude c.1 / total + n) (sum_base-allocate absq total cs)

hand_out-IsShared :
    (absq total left : ℕ) (xs : List Alloc)
    → Each (IsFloor absq total) xs
    → IsShared absq total left (hand_out left xs)
hand_out-IsShared absq total left [] h = tt
hand_out-IsShared absq total left (x ∷ xs) ((b, r), h) =
    let rest = hand_out-IsShared absq total (left - 1) xs h in
    let n = absq * x.weight / total in
    (
      ground arith,
      if-both (λ (y : Alloc). y.rem ≡ absq * y.weight % total) (0 == left) _ _ (λ e. r) (λ e. r),
      rest,
    )

tally-allocate :
    (p : ℕ → ℕ → Bool) (absq total : ℕ) (cs : List Contrib)
    → tally p (allocate absq total cs) ≡ tally_contribs p cs
tally-allocate p absq total [] = refl
tally-allocate p absq total (c ∷ cs) =
    ap (λ (n : ℕ). if p c.0 (magnitude c.1) then suc n else n) (tally-allocate p absq total cs)

tally-insert_by :
    (p : ℕ → ℕ → Bool) (x : Alloc) (xs : List Alloc)
    → tally p (insert_by precedes x xs) ≡ tally p (x ∷ xs)
tally-insert_by p x [] = refl
tally-insert_by p x (y ∷ ys) =
    if-both (λ (zs : List Alloc). tally p zs ≡ tally p (x ∷ (y ∷ ys))) (precedes y x) _ _
      (λ e. count-swap (p y.s y.weight) (p x.s x.weight) _ _ (tally-insert_by p x ys)) (λ e. refl)

tally-sort_by : (p : ℕ → ℕ → Bool) (xs : List Alloc) → tally p (sort_by precedes xs) ≡ tally p xs
tally-sort_by p [] = refl
tally-sort_by p (x ∷ xs) =
    tally-insert_by p x (sort_by precedes xs)
    ∙ ap (λ (n : ℕ). if p x.s x.weight then suc n else n) (tally-sort_by p xs)

tally-bump :
    (p : ℕ → ℕ → Bool) (b : Bool) (x : Alloc) (xs : List Alloc)
    → tally p ((if b then x else record x { base = x.base + 1 }) ∷ xs) ≡ tally p (x ∷ xs)
tally-bump p true x xs = refl
tally-bump p false x xs = refl

tally-hand_out :
    (p : ℕ → ℕ → Bool) (left : ℕ) (xs : List Alloc) → tally p (hand_out left xs) ≡ tally p xs
tally-hand_out p left [] = refl
tally-hand_out p left (x ∷ xs) =
    tally-bump p (0 == left) x (hand_out (left - 1) xs)
    ∙ ap (λ (n : ℕ). if p x.s x.weight then suc n else n) (tally-hand_out p (left - 1) xs)

-- The comparison of the sort is that order.
precedes-Before : (a b : Alloc) → precedes a b ≡ true → Before a b
precedes-Before a b h = ground arith

precedes-After : (a b : Alloc) → precedes a b ≡ false → Before b a
precedes-After a b h = ground arith

Heads-insert_by :
    (y x : Alloc) (xs : List Alloc) → Before y x → Heads y xs → Heads y (insert_by precedes x xs)
Heads-insert_by y x [] b h = b
Heads-insert_by y x (z ∷ zs) b h =
    if-both (Heads y) (precedes z x) (z ∷ insert_by precedes x zs) (x ∷ (z ∷ zs)) (λ e. h) (λ e. b)

insert_by-IsRanked :
    (x : Alloc) (xs : List Alloc) → IsRanked xs → IsRanked (insert_by precedes x xs)
insert_by-IsRanked x [] r = (tt, tt)
insert_by-IsRanked x (y ∷ ys) (h, r) =
    if-both IsRanked (precedes y x) (y ∷ insert_by precedes x ys) (x ∷ (y ∷ ys))
      (λ e. (Heads-insert_by y x ys (precedes-Before y x e) h, insert_by-IsRanked x ys r))
      (λ e. (precedes-After y x e, (h, r)))

sort_by-IsRanked : (xs : List Alloc) → IsRanked (sort_by precedes xs)
sort_by-IsRanked [] = tt
sort_by-IsRanked (x ∷ xs) = insert_by-IsRanked x (sort_by precedes xs) (sort_by-IsRanked xs)

abbrev bumped : Bool → Alloc → Alloc
bumped b a = if b then a else record a { base = a.base + 1 }

Before-bumped : (b c : Bool) (x y : Alloc) → Before x y → Before (bumped b x) (bumped c y)
Before-bumped true true x y h = h
Before-bumped true false x y h = h
Before-bumped false true x y h = h
Before-bumped false false x y h = h

hand_out-IsRanked : (left : ℕ) (xs : List Alloc) → IsRanked xs → IsRanked (hand_out left xs)
hand_out-IsRanked left [] r = tt
hand_out-IsRanked left (x ∷ []) r = (tt, tt)
hand_out-IsRanked left (x ∷ (y ∷ ys)) (h, r) =
    (Before-bumped (0 == left) (0 == left - 1) x y h, hand_out-IsRanked (left - 1) (y ∷ ys) r)

apportion-tally :
    (absq : ℕ) (cs : List Contrib) (p : ℕ → ℕ → Bool)
    → tally p (apportion absq cs) ≡ tally_contribs p cs
unfolding apportion
apportion-tally absq cs p =
    let allocs = allocate absq (gross_of cs) cs in
    tally-hand_out p (absq - sum_base allocs) (sort_by precedes allocs)
    ∙ tally-sort_by p allocs
    ∙ tally-allocate p absq (gross_of cs) cs

apportion-IsRanked : (absq : ℕ) (cs : List Contrib) → IsRanked (apportion absq cs)
unfolding apportion
apportion-IsRanked absq cs =
    let allocs = allocate absq (gross_of cs) cs in
    hand_out-IsRanked (absq - sum_base allocs) (sort_by precedes allocs) (sort_by-IsRanked allocs)

apportion-floors :
    (absq : ℕ) (cs : List Contrib)
    → IsShared absq (gross_of cs) (absq - floors absq (gross_of cs) cs) (apportion absq cs)
unfolding apportion
apportion-floors absq cs =
    let total = gross_of cs in
    let allocs = allocate absq total cs in
    subst (λ (n : ℕ). IsShared absq total (absq - n) (apportion absq cs))
      (sum_base-allocate absq total cs)
      (hand_out-IsShared absq total (absq - sum_base allocs) (sort_by precedes allocs)
        (Each-sort_by (IsFloor absq total) allocs (allocate-IsFloor absq total cs)))

-- A fill is apportioned in proportion, where the recorded contributions are not all 0. The shares
-- add up to the fill exactly. There is one share for each contribution, with its strategy and
-- weight: as many as pass any test of the two. Each is the exact proportional share rounded down;
-- the units left over go one each to the first shares in the order of larger remainder, then larger
-- weight, then lower strategy.
pub apportion-IsShared :
    (absq : ℕ) (cs : List Contrib) (p : ℕ → ℕ → Bool)
    → 0 < gross_of cs
    → (sum_base (apportion absq cs) ≡ absq)
      × (tally p (apportion absq cs) ≡ tally_contribs p cs)
      × IsRanked (apportion absq cs)
      × IsShared absq (gross_of cs) (absq - floors absq (gross_of cs) cs) (apportion absq cs)
apportion-IsShared absq cs p h = (
  apportion-whole absq cs h,
  apportion-tally absq cs p,
  apportion-IsRanked absq cs,
  apportion-floors absq cs,
)
