-- ===== src/Common/Lists.antt =====
-- Lists measured and indexed by native numbers, and lists of numbers as sets.
use Prim.Native.Nat.{ℕ, zero, suc, ◌+◌, ◌<◌}
use mathlib.Core.Path.{◌≡◌, refl, ap, ◌∙◌}
use mathlib.Core.Logic.{◌≢◌}
use mathlib.Core.Bool.{Bool, true, false, ◌||◌}
use mathlib.Core.Option.{Option, none, some}
use mathlib.Core.List.{List, [], ◌∷◌, ◌++◌}
use native.Mathlib.Omega.{arith}
use delta_assignment.Common.Tests.{◌==◌, ltb, if◌then◌else◌}

module _ {ℓ} {A : Type ℓ} where
  abbrev pub length : List A → ℕ
  length [] = 0
  length (x ∷ xs) = suc (length xs)

  abbrev pub get_or : List A → ℕ → A → A
  get_or [] i d = d
  get_or (x ∷ xs) zero d = x
  get_or (x ∷ xs) (suc i) d = get_or xs i d

  -- A write out of bounds changes nothing.
  abbrev pub set : List A → ℕ → A → List A
  set [] i v = []
  set (x ∷ xs) zero v = v ∷ xs
  set (x ∷ xs) (suc i) v = x ∷ set xs i v

  abbrev pub replicate : ℕ → A → List A
  replicate zero a = []
  replicate (suc n) a = a ∷ replicate n a

  abbrev pub take : ℕ → List A → List A
  take zero xs = []
  take (suc n) [] = []
  take (suc n) (x ∷ xs) = x ∷ take n xs

  abbrev pub drop : ℕ → List A → List A
  drop zero xs = xs
  drop (suc n) [] = []
  drop (suc n) (x ∷ xs) = drop n xs

  abbrev pub is_empty : List A → Bool
  is_empty [] = true
  is_empty (x ∷ xs) = false

  pub length-append : (xs ys : List A) → length (xs ++ ys) ≡ length xs + length ys
  length-append [] ys = omega arith
  length-append (x ∷ xs) ys = omega (arith, length-append xs ys)

module _ {ℓ} {A : Type ℓ} where
  pub length-set : (xs : List A) (i : ℕ) (v : A) → length (set xs i v) ≡ length xs
  length-set [] i v = refl
  length-set (x ∷ xs) zero v = refl
  length-set (x ∷ xs) (suc i) v = ap suc (length-set xs i v)

  pub length-replicate : (n : ℕ) (a : A) → length (replicate n a) ≡ n
  length-replicate zero a = refl
  length-replicate (suc n) a = ap suc (length-replicate n a)

  pub get_or-set_self :
      (xs : List A) (i : ℕ) (v d : A) → i < length xs → get_or (set xs i v) i d ≡ v
  get_or-set_self [] i v d h = elim h [ ]
  get_or-set_self (x ∷ xs) zero v d h = refl
  get_or-set_self (x ∷ xs) (suc i) v d h = get_or-set_self xs i v d (omega arith)

  pub get_or-set_ne :
      (xs : List A) (i j : ℕ) (v d : A) → i ≢ j → get_or (set xs i v) j d ≡ get_or xs j d
  get_or-set_ne [] i j v d h = refl
  get_or-set_ne (x ∷ xs) zero zero v d h = absurd (h refl)
  get_or-set_ne (x ∷ xs) zero (suc j) v d h = refl
  get_or-set_ne (x ∷ xs) (suc i) zero v d h = refl
  get_or-set_ne (x ∷ xs) (suc i) (suc j) v d h = get_or-set_ne xs i j v d (λ e. h (ap suc e))

  -- A list without its element at a position.
  abbrev pub take-length : (xs ys : List A) → take (length xs) (xs ++ ys) ≡ xs
  take-length [] ys = refl
  take-length (x ∷ xs) ys = ap (◌∷◌ x) (take-length xs ys)

  abbrev pub drop-length : (xs ys : List A) → drop (length xs) (xs ++ ys) ≡ ys
  drop-length [] ys = refl
  drop-length (x ∷ xs) ys = drop-length xs ys

-- Sets of numbers: `contains`, `insert_new` and `erase_all` of an unordered set.
abbrev pub contains : ℕ → List ℕ → Bool
contains a [] = false
contains a (x ∷ xs) = (x == a) || contains a xs

abbrev pub add : ℕ → List ℕ → List ℕ
add a xs = if contains a xs then xs else a ∷ xs

abbrev pub remove : ℕ → List ℕ → List ℕ
remove a [] = []
remove a (x ∷ xs) = if x == a then remove a xs else x ∷ remove a xs

pub contains-remove_self : (a : ℕ) (xs : List ℕ) → contains a (remove a xs) ≡ false
contains-remove_self a [] = refl
contains-remove_self a (x ∷ xs) = ground (arith, contains-remove_self a xs)

pub contains-remove_ne : (a b : ℕ) (xs : List ℕ) → a ≢ b → contains b (remove a xs) ≡ contains b xs
contains-remove_ne a b [] h = refl
contains-remove_ne a b (x ∷ xs) h = ground (arith, contains-remove_ne a b xs h)

pub contains-remove_sub :
    (a b : ℕ) (xs : List ℕ) → contains b (remove a xs) ≡ true → contains b xs ≡ true
contains-remove_sub a b [] h = h
contains-remove_sub a b (x ∷ xs) h = ground (arith, contains-remove_sub a b xs)

pub contains-add_self : (a : ℕ) (xs : List ℕ) → contains a (add a xs) ≡ true
contains-add_self a xs = ground arith

pub contains-add : (a b : ℕ) (xs : List ℕ) → contains b xs ≡ true → contains b (add a xs) ≡ true
contains-add a b xs h = ground arith

pub remove_absent : (a : ℕ) (xs : List ℕ) → contains a xs ≡ false → remove a xs ≡ xs
remove_absent a [] h = refl
remove_absent a (x ∷ xs) h = ground (arith, remove_absent a xs)

infixl 5 ◌>>=◌
-- A chain of steps that may fail.
abbrev pub ◌>>=◌ {ℓ κ} : {A : Type ℓ} {B : Type κ} → Option A → (A → Option B) → Option B
none >>= f = none
some a >>= f = f a

-- A chain that gives a result has one at each step.
pub bind-some {ℓ κ} :
    {A : Type ℓ} {B : Type κ} (o : Option A) (f : A → Option B) (b : B)
    → (o >>= f) ≡ some b
    → (a : A) × (o ≡ some a) × (f a ≡ some b)
bind-some none f b h = cc
bind-some (some a) f b h = (a, refl, h)

-- std::sort by a strict order
abbrev pub insert_by {ℓ} : {A : Type ℓ} → (A → A → Bool) → A → List A → List A
insert_by lt x [] = x ∷ []
insert_by lt x (y ∷ ys) = if lt y x then y ∷ insert_by lt x ys else x ∷ (y ∷ ys)

abbrev pub sort_by {ℓ} : {A : Type ℓ} → (A → A → Bool) → List A → List A
sort_by lt [] = []
sort_by lt (x ∷ xs) = insert_by lt x (sort_by lt xs)

pub contains-insert_by :
    (a x : ℕ) (xs : List ℕ) → contains a (insert_by ltb x xs) ≡ ((x == a) || contains a xs)
contains-insert_by a x [] = refl
contains-insert_by a x (y ∷ ys) = ground (arith, contains-insert_by a x ys)

-- Sorting keeps the elements.
pub contains-sort_by : (a : ℕ) (xs : List ℕ) → contains a (sort_by ltb xs) ≡ contains a xs
contains-sort_by a [] = refl
contains-sort_by a (x ∷ xs) =
    contains-insert_by a x (sort_by ltb xs)
    ∙ ap (λ (b : Bool). (x == a) || b) (contains-sort_by a xs)
