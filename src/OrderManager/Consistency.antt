-- ===== src/OrderManager/Consistency.antt =====
-- The invariant of the order manager: the pool is valid, the live index holds the working orders in
-- slots of their own, retired orders are terminal, and the pending quantity of each instrument is
-- the signed sum of what the live orders have left.
use delta_assignment.Common.{
  ℕ, ◌<◌, ◌≡◌, refl, ◌∙◌, true, false, List, [], ◌∷◌, ◌++◌, contains, inl, inr, Bool-cases,
  get_or-set_self, get_or-set_ne, length-set, ==_iff, ◌==◌, if◌then◌else◌, arith,
}
use delta_assignment.Common.Int.{ℤ, pos, ◌+ℤ◌, ◌≤ℤ◌}
use delta_assignment.Common.Dict.{Dict, find_or}
use delta_assignment.OrderId.{OrderIdRaw}
use delta_assignment.Order.{Order, fresh_order, is_terminal, remaining, signed_qty}
use delta_assignment.Pool.{OrderPool, is_current, order_at, set_order, slot_live}
use delta_assignment.Pool.Invariant
use delta_assignment.OrderManager.State.{OrderManager, slot_of}

abbrev pub slots_of : List OrderIdRaw → List ℕ
slots_of [] = []
slots_of (id ∷ ids) = slot_of id ∷ slots_of ids

-- What an order has left, with the sign of its side, if it is on the instrument.
abbrev pub contribution : ℕ → Order → ℤ
contribution inst o = if o.instrument == inst then signed_qty o.side (remaining o) else pos 0

-- The signed quantity that a list of orders has left on an instrument.
abbrev pub open_quantity : OrderPool → ℕ → List OrderIdRaw → ℤ
open_quantity p inst [] = pos 0
open_quantity p inst (id ∷ ids) =
    contribution inst (order_at p (slot_of id)) +ℤ open_quantity p inst ids

-- A working order under its own id.
abbrev pub IsWorking : OrderIdRaw → Order → Type 0
IsWorking id o = (o.internal_id ≡ id) × (is_terminal o.status ≡ false) × (pos 0 ≤ℤ remaining o)

-- A live index: each id is current, has a working order, and no slot is named twice.
abbrev pub IsLive : OrderPool → List OrderIdRaw → Type 0
IsLive p [] = Unit {0}
IsLive p (id ∷ ids) =
    (is_current p id ≡ true)
    × IsWorking id (order_at p (slot_of id))
    × (contains (slot_of id) (slots_of ids) ≡ false)
    × IsLive p ids

-- The grace FIFO: each id is current, its order is terminal, and no slot is named twice.
abbrev pub IsRetired : OrderPool → List OrderIdRaw → Type 0
IsRetired p [] = Unit {0}
IsRetired p (id ∷ ids) =
    (is_current p id ≡ true)
    × (is_terminal (order_at p (slot_of id)).status ≡ true)
    × (contains (slot_of id) (slots_of ids) ≡ false)
    × IsRetired p ids

pub record Books (p : OrderPool) (live fifo : List OrderIdRaw) (pending : Dict ℤ) : Type 0 where
  pub pool_valid : Invariant.IsValid p
  pub live_working : IsLive p live
  pub retired_terminal : IsRetired p fifo
  pub complete :
      (s : ℕ)
      → slot_live p s ≡ true
      → is_terminal (order_at p s).status ≡ false
      → (contains (order_at p s).internal_id live ≡ true) × (slot_of (order_at p s).internal_id ≡ s)
  pub pending_sum : (inst : ℕ) → find_or (pos 0) inst pending ≡ open_quantity p inst live

-- The invariant of the order manager.
abbrev pub IsConsistent : OrderManager → Type 0
IsConsistent om = Books om.pool om.live om.retired_fifo om.pending_signed

-- Two pools that differ at most in one slot.
pub record SameOff (s : ℕ) (p q : OrderPool) : Type 0 where
  pub order : (t : ℕ) → (s == t) ≡ false → order_at q t ≡ order_at p t
  pub allocated : (t : ℕ) → (s == t) ≡ false → slot_live q t ≡ slot_live p t
  pub current : (id : OrderIdRaw) → (s == slot_of id) ≡ false → is_current q id ≡ is_current p id

module _ {p q : OrderPool} {s : ℕ} (same : SameOff s p q) where
  pub IsLive-SameOff :
      (ids : List OrderIdRaw) → contains s (slots_of ids) ≡ false → IsLive p ids → IsLive q ids
  IsLive-SameOff [] h v = tt
  IsLive-SameOff (id ∷ ids) h v = elim (Bool-cases (s == slot_of id)) [
    | inl e ↦ absurd (ground arith)
    | inr e ↦ (
      same.current id (ground arith) ∙ v.0,
      rw (same.order (slot_of id) (ground arith)) v.1,
      v.2,
      IsLive-SameOff ids (ground arith) v.3,
    )
  ]

  pub IsRetired-SameOff :
      (ids : List OrderIdRaw)
      → contains s (slots_of ids) ≡ false
      → IsRetired p ids
      → IsRetired q ids
  IsRetired-SameOff [] h v = tt
  IsRetired-SameOff (id ∷ ids) h v = elim (Bool-cases (s == slot_of id)) [
    | inl e ↦ absurd (ground arith)
    | inr e ↦ (
      same.current id (ground arith) ∙ v.0,
      rw (same.order (slot_of id) (ground arith)) v.1,
      v.2,
      IsRetired-SameOff ids (ground arith) v.3,
    )
  ]

  pub open_quantity-SameOff :
      (inst : ℕ) (ids : List OrderIdRaw)
      → contains s (slots_of ids) ≡ false
      → open_quantity q inst ids ≡ open_quantity p inst ids
  open_quantity-SameOff inst [] h = refl
  open_quantity-SameOff inst (id ∷ ids) h = elim (Bool-cases (s == slot_of id)) [
    | inl e ↦ absurd (ground arith)
    | inr e ↦
        rw (same.order (slot_of id) (ground arith), open_quantity-SameOff inst ids (ground arith))
  ]

-- A write to a slot.
pub set_order-SameOff : (p : OrderPool) (s : ℕ) (o : Order) → SameOff s p (set_order p s o)
unfolding is_current
set_order-SameOff p s o = record {
  order = λ t n. get_or-set_ne p.slots s t o fresh_order (ground arith);
  allocated = λ t n. refl;
  current = λ id n. refl;
}

pub is_current-set_order :
    (p : OrderPool) (s : ℕ) (o : Order) (id : OrderIdRaw)
    → is_current (set_order p s o) id ≡ is_current p id
unfolding is_current
is_current-set_order p s o id = refl

pub order_at-set_order :
    (p : OrderPool) (s : ℕ) (o : Order)
    → Invariant.IsValid p
    → slot_live p s ≡ true
    → order_at (set_order p s o) s ≡ o
order_at-set_order p s o v h =
    get_or-set_self p.slots s o fresh_order (omega (arith, v.slots_length, in_range))
  where
    in_range : s < p.capacity
    in_range = ground arith

pub set_order-IsValid :
    (p : OrderPool) (s : ℕ) (o : Order) → Invariant.IsValid p → Invariant.IsValid (set_order p s o)
set_order-IsValid p s o v = record {
  positive = v.positive;
  addressable = v.addressable;
  slots_length = length-set p.slots s o ∙ v.slots_length;
  generation_length = v.generation_length;
  allocated_length = v.allocated_length;
  counted = v.counted;
  live = v.live;
  free = v.free;
  complete = v.complete;
  generation_fits = v.generation_fits;
}

pub current-slot_live :
    (p : OrderPool) (id : OrderIdRaw) → is_current p id ≡ true → slot_live p (slot_of id) ≡ true
unfolding is_current
current-slot_live p id h = ground arith

-- A slot of the grace FIFO holds a terminal order.
pub retired-terminal :
    (p : OrderPool) (s : ℕ) (ids : List OrderIdRaw)
    → IsRetired p ids
    → contains s (slots_of ids) ≡ true
    → is_terminal (order_at p s).status ≡ true
retired-terminal p s [] v h = cc
retired-terminal p s (id ∷ ids) v h = elim (Bool-cases (slot_of id == s)) [
  | inl e ↦ rw (← (==_iff (slot_of id) s).0 e) v.1
  | inr e ↦ retired-terminal p s ids v.3 (ground arith)
]

-- So a slot with a working order is not in the FIFO.
pub working-not_retired :
    (p : OrderPool) (s : ℕ) (ids : List OrderIdRaw)
    → IsRetired p ids
    → is_terminal (order_at p s).status ≡ false
    → contains s (slots_of ids) ≡ false
working-not_retired p s ids v h = ground (arith, retired-terminal p s ids v)

-- A live id is current, and has a working order.
pub live-IsWorking :
    (p : OrderPool) (id : OrderIdRaw) (ids : List OrderIdRaw)
    → IsLive p ids
    → contains id ids ≡ true
    → (is_current p id ≡ true) × IsWorking id (order_at p (slot_of id))
live-IsWorking p id [] v h = cc
live-IsWorking p id (j ∷ ids) v h = elim (Bool-cases (j == id)) [
  | inl e ↦ rw (← (==_iff j id).0 e) (v.0, v.1)
  | inr e ↦ live-IsWorking p id ids v.3 (ground arith)
]

-- A slot that is not in use belongs to no live id.
pub dead-not_live :
    (p : OrderPool) (s : ℕ) (ids : List OrderIdRaw)
    → slot_live p s ≡ false
    → IsLive p ids
    → contains s (slots_of ids) ≡ false
dead-not_live p s [] h v = refl
dead-not_live p s (id ∷ ids) h v = elim (Bool-cases (slot_of id == s)) [
  | inl e ↦
      let same : slot_of id ≡ s = (==_iff (slot_of id) s).0 e in
      let used : slot_live p s ≡ true = rw same at (current-slot_live p id v.0) in cc
  | inr e ↦ rw e (dead-not_live p s ids h v.3)
]

pub dead-not_retired :
    (p : OrderPool) (s : ℕ) (ids : List OrderIdRaw)
    → slot_live p s ≡ false
    → IsRetired p ids
    → contains s (slots_of ids) ≡ false
dead-not_retired p s [] h v = refl
dead-not_retired p s (id ∷ ids) h v = elim (Bool-cases (slot_of id == s)) [
  | inl e ↦
      let same : slot_of id ≡ s = (==_iff (slot_of id) s).0 e in
      let used : slot_live p s ≡ true = rw same at (current-slot_live p id v.0) in cc
  | inr e ↦ rw e (dead-not_retired p s ids h v.3)
]

-- A slot with a terminal order belongs to no live id.
pub terminal-not_live :
    (p : OrderPool) (s : ℕ) (ids : List OrderIdRaw)
    → is_terminal (order_at p s).status ≡ true
    → IsLive p ids
    → contains s (slots_of ids) ≡ false
terminal-not_live p s [] h v = refl
terminal-not_live p s (id ∷ ids) h v = elim (Bool-cases (slot_of id == s)) [
  | inl e ↦
      let same : slot_of id ≡ s = (==_iff (slot_of id) s).0 e in
      let works : is_terminal (order_at p s).status ≡ false = rw same at v.1.1 in cc
  | inr e ↦ rw e (terminal-not_live p s ids h v.3)
]

slots_of-push :
    (s : ℕ) (id : OrderIdRaw) (ids : List OrderIdRaw)
    → contains s (slots_of ids) ≡ false
    → (slot_of id == s) ≡ false
    → contains s (slots_of (ids ++ id ∷ [])) ≡ false
slots_of-push s id [] h n = ground arith
slots_of-push s id (j ∷ ids) h n = ground (arith, slots_of-push s id ids)

-- One more id at the back of the FIFO.
pub IsRetired-push :
    (p : OrderPool) (id : OrderIdRaw) (ids : List OrderIdRaw)
    → is_current p id ≡ true
    → is_terminal (order_at p (slot_of id)).status ≡ true
    → contains (slot_of id) (slots_of ids) ≡ false
    → IsRetired p ids
    → IsRetired p (ids ++ id ∷ [])
IsRetired-push p id [] c t n v = (c, t, refl, tt)
IsRetired-push p id (j ∷ ids) c t n v = (
  v.0,
  v.1,
  slots_of-push (slot_of j) id ids v.2 (ground arith),
  IsRetired-push p id ids c t (ground arith) v.3,
)
