-- ===== src/Pool/FreeList.antt =====
-- The free list of the pool: distinct slots below the capacity, none of them allocated.
use delta_assignment.Common.{
  ℕ, suc, zero, ◌+◌, ◌<◌, ◌≤◌, ◌≡◌, refl, Bool, true, false, List, [], ◌∷◌, contains, length,
  Bool-cases, inl, inr, get_or, set, replicate, get_or-set_ne, arith, ◌==◌, if◌then◌else◌,
}
use delta_assignment.Pool.{slots_from}

abbrev pub IsFreeList : List Bool → ℕ → List ℕ → Type 0
IsFreeList allocated cap [] = Unit {0}
IsFreeList allocated cap (s ∷ fs) =
    (s < cap)
    × (get_or allocated s false ≡ false)
    × (contains s fs ≡ false)
    × IsFreeList allocated cap fs

pub set-IsFreeList :
    (al : List Bool) (cap s : ℕ) (b : Bool) (fs : List ℕ)
    → contains s fs ≡ false
    → IsFreeList al cap fs
    → IsFreeList (set al s b) cap fs
set-IsFreeList al cap s b [] h v = tt
set-IsFreeList al cap s b (f ∷ fs) h v = (
  v.0,
  ground (arith, get_or-set_ne al s f b false),
  v.2,
  set-IsFreeList al cap s b fs (ground arith) v.3,
)

pub allocated-not_free :
    (al : List Bool) (cap s : ℕ) (fs : List ℕ)
    → get_or al s false ≡ true
    → IsFreeList al cap fs
    → contains s fs ≡ false
allocated-not_free al cap s [] h v = refl
allocated-not_free al cap s (f ∷ fs) h v = ground (arith, allocated-not_free al cap s fs h v.3)

slots_from-above : (lo n s : ℕ) → s < lo → contains s (slots_from lo n) ≡ false
slots_from-above lo zero s h = refl
slots_from-above lo (suc n) s h = ground (arith, slots_from-above (suc lo) n s (omega arith))

pub get_or-replicate : {A : Type 0} (n i : ℕ) (a : A) → get_or (replicate n a) i a ≡ a
get_or-replicate zero i a = refl
get_or-replicate (suc n) zero a = refl
get_or-replicate (suc n) (suc i) a = get_or-replicate n i a

pub slots_from-IsFreeList :
    (cap lo n : ℕ) → lo + n ≡ cap → IsFreeList (replicate cap false) cap (slots_from lo n)
slots_from-IsFreeList cap lo zero h = tt
slots_from-IsFreeList cap lo (suc n) h = (
  omega arith,
  get_or-replicate cap lo false,
  slots_from-above (suc lo) n lo (omega arith),
  slots_from-IsFreeList cap (suc lo) n (omega arith),
)

pub length-slots_from : (lo n : ℕ) → length (slots_from lo n) ≡ n
length-slots_from lo zero = refl
length-slots_from lo (suc n) = omega (arith, length-slots_from (suc lo) n)

pub contains-slots_from : (lo n s : ℕ) → lo ≤ s → s < lo + n → contains s (slots_from lo n) ≡ true
contains-slots_from lo zero s h k = absurd (omega arith)
contains-slots_from lo (suc n) s h k = elim (Bool-cases (lo == s)) [
  | inl e ↦ rw e refl
  | inr e ↦ rw e (contains-slots_from (suc lo) n s (ground arith) (omega arith))
]

-- How many slots are allocated.
abbrev pub count_live : List Bool → ℕ
count_live [] = 0
count_live (b ∷ bs) = (if b then 1 else 0) + count_live bs

pub count_live-replicate : (n : ℕ) → count_live (replicate n false) ≡ 0
count_live-replicate zero = refl
count_live-replicate (suc n) = omega (arith, count_live-replicate n)

pub count_live-acquire :
    (bs : List Bool) (s : ℕ)
    → s < length bs
    → get_or bs s false ≡ false
    → count_live (set bs s true) ≡ count_live bs + 1
count_live-acquire [] s h e = elim h [ ]
count_live-acquire (b ∷ bs) zero h e = ground arith
count_live-acquire (b ∷ bs) (suc s) h e = omega (arith, count_live-acquire bs s (omega arith) e)

pub count_live-release :
    (bs : List Bool) (s : ℕ)
    → get_or bs s false ≡ true
    → count_live (set bs s false) + 1 ≡ count_live bs
count_live-release [] s e = cc
count_live-release (b ∷ bs) zero e = ground arith
count_live-release (b ∷ bs) (suc s) e = omega (arith, count_live-release bs s e)
