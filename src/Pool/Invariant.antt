-- ===== src/Pool/Invariant.antt =====
-- The bookkeeping of the pool (src/OrderPool.cpp) agrees with itself, whatever is called.
use delta_assignment.Common.{
  ℕ, ◌+◌, ◌-◌, ◌%◌, ◌^◌, ◌<◌, ◌≤◌, ◌≡◌, refl, sym, ==_iff, ap, ◌∙◌, Bool-cases, inl, inr, true,
  false, List, [], ◌∷◌, Option, none, some, contains, length, get_or, set, get_or-set_self,
  get_or-set_ne, length-set, length-replicate, arith, ◌==◌,
}
use delta_assignment.Pool.{
  OrderPool, make_pool, acquire, release, is_allocated, generation_of, slot_live, take_slot,
}
use delta_assignment.Pool.FreeList.{
  IsFreeList, set-IsFreeList, allocated-not_free, slots_from-IsFreeList, length-slots_from,
  get_or-replicate, contains-slots_from, count_live, count_live-replicate, count_live-acquire,
  count_live-release,
}

pub record IsValid (p : OrderPool) : Type 0 where
  pub positive : 0 < p.capacity
  pub addressable : p.capacity ≤ 2 ^ 24
  pub slots_length : length p.slots ≡ p.capacity
  pub generation_length : length p.generation ≡ p.capacity
  pub allocated_length : length p.allocated ≡ p.capacity
  pub counted : p.in_use + length p.free_list ≡ p.capacity
  pub live : count_live p.allocated ≡ p.in_use
  pub free : IsFreeList p.allocated p.capacity p.free_list
  pub complete : (s : ℕ) → s < p.capacity → is_allocated p s ≡ false → contains s p.free_list ≡ true
  pub generation_fits : (s : ℕ) → generation_of p s < 2 ^ 16

-- The constructor sets up a valid pool for a capacity of 1 to 2^24.
pub make_pool-IsValid : (n : ℕ) → 0 < n → n ≤ 2 ^ 24 → IsValid (make_pool n)
unfolding make_pool
make_pool-IsValid n h k = record {
  positive = h;
  addressable = k;
  slots_length = length-replicate n _;
  generation_length = length-replicate n _;
  allocated_length = length-replicate n _;
  counted = omega (arith, length-slots_from 0 n);
  live = count_live-replicate n;
  free = slots_from-IsFreeList n 0 n (omega arith);
  complete = λ s h e. contains-slots_from 0 n s (omega arith) (omega arith);
  generation_fits = λ s. omega (arith, get_or-replicate {A = ℕ} n s 0);
}

-- What `acquire` does, by whether a slot is free.
abbrev pub Acquires : OrderPool → Option (ℕ × OrderPool) → Type 0
Acquires p none = p.in_use ≡ p.capacity
Acquires p (some (s, q)) =
    (p.in_use < p.capacity)
    × (slot_live p s ≡ false)
    × (slot_live q s ≡ true)
    × (s < p.capacity)
    × (generation_of q s ≡ generation_of p s)
    × IsValid q

acquire_from :
    (p : OrderPool) (fs : List ℕ) → p.free_list ≡ fs → IsValid p → Acquires p (take_slot p fs)
acquire_from p [] e v = omega (arith, v.counted, ap length e)
acquire_from p (s ∷ rest) e v = (
  omega (arith, v.counted, ap length e),
  ground (arith, free.1),
  ground (arith, free.0, allocated_now),
  free.0,
  refl,
  record {
    positive = v.positive;
    addressable = v.addressable;
    slots_length = length-set p.slots s _ ∙ v.slots_length;
    generation_length = v.generation_length;
    allocated_length = length-set p.allocated s true ∙ v.allocated_length;
    counted = omega (arith, v.counted, ap length e, v.addressable);
    live = omega (
      arith,
      count_live-acquire p.allocated s (omega (arith, free.0, v.allocated_length)) free.1,
      v.live,
      v.counted,
      ap length e,
      v.addressable,
    );
    free = set-IsFreeList p.allocated p.capacity s true rest free.2 free.3;
    complete = complete;
    generation_fits = v.generation_fits;
  },
)
  where
    free : IsFreeList p.allocated p.capacity (s ∷ rest)
    free = rw e at v.free

    allocated_now : get_or (set p.allocated s true) s false ≡ true
    allocated_now =
        get_or-set_self p.allocated s true false (omega (arith, free.0, v.allocated_length))

    complete :
        (t : ℕ)
        → t < p.capacity
        → get_or (set p.allocated s true) t false ≡ false
        → contains t rest ≡ true
    complete t h n = elim (Bool-cases (s == t)) [
      | inl same ↦ ground (arith, allocated_now)
      | inr other ↦
          let known : contains t (s ∷ rest) ≡ true =
            rw e at (
              v.complete t h (sym (get_or-set_ne p.allocated s t true false (ground arith)) ∙ n)) in
          ground arith
    ]

-- On a valid pool `acquire` fails exactly when the pool is exhausted; otherwise it takes a slot
-- that was free, in range, keeps the slot's generation, and leaves a valid pool.
pub acquire-Acquires : (p : OrderPool) → IsValid p → Acquires p (acquire p)
unfolding acquire
acquire-Acquires p v = acquire_from p p.free_list refl v

-- What `release` does to a valid pool: it succeeds on a live slot only.
abbrev pub Releases : OrderPool → ℕ → Option OrderPool → Type 0
Releases p s none = slot_live p s ≡ false
Releases p s (some q) =
    (slot_live p s ≡ true)
    × (slot_live q s ≡ false)
    × (generation_of q s ≡ (generation_of p s + 1) % 2 ^ 16)
    × (q.in_use + 1 ≡ p.in_use)
    × IsValid q

release_live :
    (p : OrderPool) (s : ℕ)
    → IsValid p
    → s < p.capacity
    → is_allocated p s ≡ true
    → Releases p s (
        some (record p {
          allocated = set p.allocated s false;
          generation = set p.generation s ((generation_of p s + 1) % 2 ^ 16);
          in_use = (p.in_use + 2 ^ 32 - 1) % 2 ^ 32;
          free_list = s ∷ p.free_list;
        }))
release_live p s v h e = (
  ground arith,
  ground (arith, freed),
  get_or-set_self p.generation s _ 0 (omega (arith, v.generation_length)),
  omega (arith, taken, v.live, v.counted, v.addressable),
  record {
    positive = v.positive;
    addressable = v.addressable;
    slots_length = v.slots_length;
    generation_length = length-set p.generation s _ ∙ v.generation_length;
    allocated_length = length-set p.allocated s false ∙ v.allocated_length;
    counted = omega (arith, taken, v.live, v.counted, v.addressable);
    live = omega (arith, taken, v.live, v.counted, v.addressable);
    free =
        (h, freed, absent, set-IsFreeList p.allocated p.capacity s false p.free_list absent v.free);
    complete = complete;
    generation_fits = fits;
  },
)
  where
    taken : count_live (set p.allocated s false) + 1 ≡ count_live p.allocated
    taken = count_live-release p.allocated s e

    freed : get_or (set p.allocated s false) s false ≡ false
    freed = get_or-set_self p.allocated s false false (omega (arith, v.allocated_length))

    absent : contains s p.free_list ≡ false
    absent = allocated-not_free p.allocated p.capacity s p.free_list e v.free

    complete :
        (t : ℕ)
        → t < p.capacity
        → get_or (set p.allocated s false) t false ≡ false
        → contains t (s ∷ p.free_list) ≡ true
    complete t k n = elim (Bool-cases (s == t)) [
      | inl same ↦ ground arith
      | inr other ↦ ground (arith, v.complete t k, get_or-set_ne p.allocated s t false false)
    ]

    fits : (t : ℕ) → get_or (set p.generation s ((generation_of p s + 1) % 2 ^ 16)) t 0 < 2 ^ 16
    fits t = elim (Bool-cases (s == t)) [
      | inl same ↦
          let at : s ≡ t = (==_iff s t).0 same in
          rw (← at) (
            rw
              (get_or-set_self p.generation s ((generation_of p s + 1) % 2 ^ 16) 0
                (omega (arith, v.generation_length)))
              (omega arith))
      | inr other ↦ rw (get_or-set_ne p.generation s t _ 0 (ground arith)) (v.generation_fits t)
    ]

-- On a valid pool `release` fails exactly on a slot that is not live (a double free, or out of
-- range); otherwise the slot is free, its generation is bumped modulo 2^16, and the pool is valid.
pub release-Releases : (p : OrderPool) (s : ℕ) → IsValid p → Releases p s (release p s)
unfolding release
release-Releases p s v = elim (Bool-cases (slot_live p s)) [
  | inl live ↦ rw live (release_live p s v (ground arith) (ground arith))
  | inr dead ↦ rw dead dead
]
