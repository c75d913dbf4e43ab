-- ===== src/Pool/Stale.antt =====
-- Stale ids: what the generation counter of src/OrderPool.cpp guarantees over any history.
use delta_assignment.Common.{
  ℕ, ◌+◌, ◌%◌, ◌^◌, ◌<◌, ◌≡◌, inl, inr, true, false, ◌&&◌, List, [], ◌∷◌, some, get_or-set_ne,
  arith, ◌==◌, if◌then◌else◌, Bool-cases, ==_iff,
}
use delta_assignment.OrderId.{OrderIdRaw, decode_order_id}
use delta_assignment.Pool.{
  OrderPool, acquire, release, generation_of, slot_live, is_current, take_slot,
}
use delta_assignment.Pool.Invariant.{
  IsValid, Acquires, acquire-Acquires, Releases, release-Releases,
}

-- A call of the pool that did not stop at an assertion.
pub data Step (p q : OrderPool) : Type 0 where
  acquires : (s : ℕ) → acquire p ≡ some (s, q) → Step p q
  releases : (s : ℕ) → release p s ≡ some q → Step p q

-- A history of calls.
pub data Run (p : OrderPool) : OrderPool → Type 0 where
  here : Run p p
  next : {q r : OrderPool} → Run p q → Step q r → Run p r

-- How often a step, or a history, gave back a slot.
abbrev pub releases_in_step : {p q : OrderPool} → ℕ → Step p q → ℕ
releases_in_step s (acquires t e) = 0
releases_in_step s (releases t e) = if t == s then 1 else 0

abbrev pub releases_of : {p q : OrderPool} → ℕ → Run p q → ℕ
releases_of s here = 0
releases_of s (next r st) = releases_of s r + releases_in_step s st

Step-IsValid : {p q : OrderPool} → Step p q → IsValid p → IsValid q
Step-IsValid {p} {q} (acquires s e) v =
    let r : Acquires p (some (s, q)) = rw e at (acquire-Acquires p v) in r.5
Step-IsValid {p} {q} (releases s e) v =
    let r : Releases p s (some q) = rw e at (release-Releases p s v) in r.4

-- Every history of calls of acquire and release on a valid pool keeps it valid.
pub Run-IsValid : {p q : OrderPool} → IsValid p → Run p q → IsValid q
Run-IsValid v here = v
Run-IsValid v (next r st) = Step-IsValid st (Run-IsValid v r)

take_slot-generation :
    (p q : OrderPool) (s : ℕ) (fs : List ℕ)
    → take_slot p fs ≡ some (s, q)
    → q.generation ≡ p.generation
take_slot-generation p q s [] e = cc
take_slot-generation p q s (f ∷ fs) e = ground arith

acquire-generation :
    (p q : OrderPool) (s : ℕ) → acquire p ≡ some (s, q) → q.generation ≡ p.generation
unfolding acquire
acquire-generation p q s e = take_slot-generation p q s p.free_list e

release-generation_ne :
    (p q : OrderPool) (s t : ℕ)
    → release p s ≡ some q
    → (s == t) ≡ false
    → generation_of q t ≡ generation_of p t
unfolding release
release-generation_ne p q s t e n =
    ground (arith, get_or-set_ne p.generation s t ((generation_of p s + 1) % 2 ^ 16) 0)

Step-generation :
    {p q : OrderPool} (t : ℕ) (st : Step p q)
    → IsValid p
    → generation_of q t ≡ (generation_of p t + releases_in_step t st) % 2 ^ 16
Step-generation {p} {q} t (acquires s e) v =
    rw (acquire-generation p q s e) (omega (arith, v.generation_fits t))
Step-generation {p} {q} t (releases s e) v = elim (Bool-cases (s == t)) [
  | inl same ↦
      let r : Releases p s (some q) = rw e at (release-Releases p s v) in
      let at : s ≡ t = (==_iff s t).0 same in rw (same, ← at) r.2
  | inr other ↦
      rw (other, release-generation_ne p q s t e other) (omega (arith, v.generation_fits t))
]

-- After a history of calls on a valid pool the generation of a slot is the one before plus the releases of the
-- slot, modulo 2^16.
pub Run-generation :
    {p q : OrderPool} (t : ℕ) (r : Run p q)
    → IsValid p
    → generation_of q t ≡ (generation_of p t + releases_of t r) % 2 ^ 16
Run-generation t here v = omega (arith, v.generation_fits t)
Run-generation t (next r st) v =
    omega (arith, Run-generation t r v, Step-generation t st (Run-IsValid v r))

wraps_iff : (g k : ℕ) → g < 2 ^ 16 → ((g + k) % 2 ^ 16 == g) ≡ (k % 2 ^ 16 == 0)
wraps_iff g k h = ground arith

-- On a valid pool an id that was current is current after a history exactly when its slot is live
-- and was given back a multiple of 2^16 times: from its first release on it is stale, until the
-- counter wraps.
pub is_current-Run :
    {p q : OrderPool} (id : OrderIdRaw) (r : Run p q)
    → IsValid p
    → is_current p id ≡ true
    → let s = (decode_order_id id).slot in
      is_current q id ≡ (slot_live q s && (releases_of s r % 2 ^ 16) == 0)
unfolding is_current
is_current-Run {p} {q} id r v c =
    let s : ℕ = (decode_order_id id).slot in
    let own : generation_of p s ≡ (decode_order_id id).generation = ground arith in
    rw (← own, Run-generation s r v, wraps_iff _ _ (v.generation_fits s))
