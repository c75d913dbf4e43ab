-- ===== src/OrderManager/LiveIndex.antt =====
-- The live index under the changes that one event makes: an order is updated in place, or leaves.
use delta_assignment.Common.{
  ℕ, ◌≡◌, refl, ◌∙◌, true, false, List, [], ◌∷◌, contains, inl, inr, Bool-cases, remove_absent,
  ==_iff, ◌==◌, remove, arith,
}
use delta_assignment.Common.Int.{◌+ℤ◌, int_laws, +ℤ-under}
use delta_assignment.OrderId.{OrderIdRaw}
use delta_assignment.Order.{Order}
use delta_assignment.Pool.{OrderPool, is_current, order_at, set_order}
use delta_assignment.Pool.Invariant
use delta_assignment.OrderManager.State.{slot_of}
use delta_assignment.OrderManager.Consistency.{
  IsLive, IsWorking, open_quantity, contribution, slots_of, set_order-SameOff, IsLive-SameOff,
  open_quantity-SameOff, order_at-set_order, is_current-set_order, current-slot_live,
}

pub contains-slots_of :
    (id : OrderIdRaw) (ids : List OrderIdRaw)
    → contains id ids ≡ true
    → contains (slot_of id) (slots_of ids) ≡ true
contains-slots_of id [] h = cc
contains-slots_of id (j ∷ ids) h = elim (Bool-cases (j == id)) [
  | inl e ↦ let same : j ≡ id = (==_iff j id).0 e in rw same (ground arith)
  | inr e ↦ ground (arith, contains-slots_of id ids)
]

slots_of-remove_sub :
    (s : ℕ) (id : OrderIdRaw) (ids : List OrderIdRaw)
    → contains s (slots_of ids) ≡ false
    → contains s (slots_of (remove id ids)) ≡ false
slots_of-remove_sub s id [] h = refl
slots_of-remove_sub s id (j ∷ ids) h = elim (Bool-cases (j == id)) [
  | inl e ↦ rw e (slots_of-remove_sub s id ids (ground arith))
  | inr e ↦ rw e (ground (arith, slots_of-remove_sub s id ids))
]

-- In a live index no other id has the slot of a live id.
pub slots_of-remove :
    (p : OrderPool) (id : OrderIdRaw) (ids : List OrderIdRaw)
    → IsLive p ids
    → contains id ids ≡ true
    → contains (slot_of id) (slots_of (remove id ids)) ≡ false
slots_of-remove p id [] v h = cc
slots_of-remove p id (j ∷ ids) v h = elim (Bool-cases (j == id)) [
  | inl e ↦
      let same : j ≡ id = (==_iff j id).0 e in
      rw e (slots_of-remove_sub (slot_of id) id ids (rw same at v.2))
  | inr e ↦
      let deeper : contains id ids ≡ true = ground arith in
      let here : contains (slot_of id) (slots_of ids) ≡ true = contains-slots_of id ids deeper in
      rw e (ground (arith, slots_of-remove p id ids v.3 deeper))
]

pub IsLive-remove :
    (p : OrderPool) (id : OrderIdRaw) (ids : List OrderIdRaw)
    → IsLive p ids
    → IsLive p (remove id ids)
IsLive-remove p id [] v = tt
IsLive-remove p id (j ∷ ids) v = elim (Bool-cases (j == id)) [
  | inl e ↦ rw e (IsLive-remove p id ids v.3)
  | inr e ↦ rw e (v.0, v.1, slots_of-remove_sub (slot_of j) id ids v.2, IsLive-remove p id ids v.3)
]

not_live :
    (id : OrderIdRaw) (ids : List OrderIdRaw)
    → contains (slot_of id) (slots_of ids) ≡ false
    → contains id ids ≡ false
not_live id ids h = ground (arith, contains-slots_of id ids)

-- What an order has left goes with it.
pub open_quantity-remove :
    (p : OrderPool) (inst : ℕ) (id : OrderIdRaw) (ids : List OrderIdRaw)
    → IsLive p ids
    → contains id ids ≡ true
    → open_quantity p inst ids
      ≡ contribution inst (order_at p (slot_of id)) +ℤ open_quantity p inst (remove id ids)
open_quantity-remove p inst id [] v h = cc
open_quantity-remove p inst id (j ∷ ids) v h = elim (Bool-cases (j == id)) [
  | inl e ↦
      let same : j ≡ id = (==_iff j id).0 e in
      let gone : contains id ids ≡ false = not_live id ids (rw same at v.2) in
      rw (e, remove_absent id ids gone, same)
  | inr e ↦ rw (e, open_quantity-remove p inst id ids v.3 (ground arith)) (omega int_laws)
]

-- A slot that is listed is no slot that is not.
apart : (a b : ℕ) (xs : List ℕ) → contains a xs ≡ true → contains b xs ≡ false → (a == b) ≡ false
apart a b xs h k = elim (Bool-cases (a == b)) [
  | inl e ↦ let same : a ≡ b = (==_iff a b).0 e in cc
  | inr e ↦ e
]

module _ (p : OrderPool) (valid : Invariant.IsValid p) (id : OrderIdRaw) (o : Order) where
  written : is_current p id ≡ true → order_at (set_order p (slot_of id) o) (slot_of id) ≡ o
  written h = order_at-set_order p (slot_of id) o valid (current-slot_live p id h)

  -- An order is replaced by a working one.
  pub IsLive-update :
      (ids : List OrderIdRaw)
      → contains id ids ≡ true
      → IsWorking id o
      → IsLive p ids
      → IsLive (set_order p (slot_of id) o) ids
  IsLive-update [] h w v = cc
  IsLive-update (j ∷ ids) h w v = elim (Bool-cases (j == id)) [
    | inl e ↦
        let same : j ≡ id = (==_iff j id).0 e in
        let now : is_current p id ≡ true = rw same at v.0 in
        let alone : contains (slot_of id) (slots_of ids) ≡ false = rw same at v.2 in
        rw same (
          is_current-set_order p (slot_of id) o id ∙ now,
          rw (written now) w,
          alone,
          IsLive-SameOff (set_order-SameOff p (slot_of id) o) ids alone v.3,
        )
    | inr e ↦
        let deeper : contains id ids ≡ true = ground arith in
        let off = set_order-SameOff p (slot_of id) o in
        let other : (slot_of id == slot_of j) ≡ false =
          apart (slot_of id) (slot_of j) (slots_of ids) (contains-slots_of id ids deeper) v.2 in
        (
          is_current-set_order p (slot_of id) o j ∙ v.0,
          rw (off.order (slot_of j) other) v.1,
          v.2,
          IsLive-update ids deeper w v.3,
        )
  ]

  -- What the orders have left changes by what that order's share changes.
  pub open_quantity-update :
      (inst : ℕ) (ids : List OrderIdRaw)
      → contains id ids ≡ true
      → IsLive p ids
      → open_quantity (set_order p (slot_of id) o) inst ids
          +ℤ contribution inst (order_at p (slot_of id))
        ≡ open_quantity p inst ids +ℤ contribution inst o
  open_quantity-update inst [] h v = cc
  open_quantity-update inst (j ∷ ids) h v = elim (Bool-cases (j == id)) [
    | inl e ↦
        let same : j ≡ id = (==_iff j id).0 e in
        let now : is_current p id ≡ true = rw same at v.0 in
        let alone : contains (slot_of id) (slots_of ids) ≡ false = rw same at v.2 in
        rw
          (
            same,
            written now,
            open_quantity-SameOff (set_order-SameOff p (slot_of id) o) inst ids alone,
          )
          (omega int_laws)
    | inr e ↦
        let deeper : contains id ids ≡ true = ground arith in
        let off = set_order-SameOff p (slot_of id) o in
        let other : (slot_of id == slot_of j) ≡ false =
          apart (slot_of id) (slot_of j) (slots_of ids) (contains-slots_of id ids deeper) v.2 in
        rw (off.order (slot_of j) other) (
          +ℤ-under (contribution inst (order_at p (slot_of j))) _ _ _ _
            (open_quantity-update inst ids deeper v.3))
  ]
