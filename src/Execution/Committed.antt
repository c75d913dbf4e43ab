-- ===== src/Execution/Committed.antt =====
-- What an algorithm is committed to: what is filled and what is in flight (src/ExecutionAlgo.cpp).
use delta_assignment.Common.{
  ◌==◌, false, Option, none, some, ◌≡◌, refl, inl, inr, Bool-cases, if-both,
}
use delta_assignment.Common.Int.{ℤ, pos, ◌+ℤ◌, ◌-ℤ◌, ◌≤ℤ◌, ◌<ℤ◌, leb_ℤ}
use delta_assignment.Common.Dict.{lookup, insert, erase}
use delta_assignment.OrderId.{OrderIdRaw}
use delta_assignment.Order.{Order, OrderType, remaining}
use delta_assignment.OrderManager.Types.{Env}
use delta_assignment.OrderManager.State.{OrderManager}
use delta_assignment.OrderManager.Submit.{submit}
use delta_assignment.Execution.{
  AlgoBase, is_filled, sum_values, child_request, note_child, send_child, on_fill, forget_child,
  inflight, remaining_quantity,
}
use delta_assignment.Execution.Sums.{
  AllNonneg, leb_ℤ→gt, insert-AllNonneg, erase-AllNonneg, sum_values-insert_le,
  sum_values-insert_new, sum_values-insert, sum_values-erase_le, sum_values-erase, erased, fewer,
  left_nonneg, shrunk, not_both, nonneg_of_pos, room, room_exact, added, more_committed,
}

module _ {W : Type 0} where
  -- What an algorithm has filled and has in flight.
  abbrev pub committed : AlgoBase W → ℤ
  committed b = b.filled +ℤ inflight b

  -- The children's quantities are not negative, and the commitment does not exceed the target.
  abbrev pub WithinTarget : AlgoBase W → Type 0
  WithinTarget b = AllNonneg b.children × (committed b ≤ℤ b.parent.qty)

  note_child-WithinTarget :
      (id : OrderIdRaw) (q : ℤ) (b : AlgoBase W)
      → pos 0 ≤ℤ q
      → committed b +ℤ q ≤ℤ b.parent.qty
      → WithinTarget b
      → WithinTarget (note_child id q b)
  unfolding note_child
  note_child-WithinTarget id q b h k w = elim (Bool-cases (id == 0)) [
    | inl e ↦ rw e w
    | inr e ↦ rw e (
      insert-AllNonneg id q b.children h w.0,
      more_committed b.filled q (sum_values (insert id q b.children)) (sum_values b.children)
          b.parent.qty (sum_values-insert_le id q b.children w.0) k,
    )
  ]

  note_child-frame :
      (id : OrderIdRaw) (q : ℤ) (b : AlgoBase W)
      → ((note_child id q b).parent ≡ b.parent) × ((note_child id q b).filled ≡ b.filled)
  unfolding note_child
  note_child-frame id q b = elim (Bool-cases (id == 0)) [
    | inl e ↦ rw e (refl, refl)
    | inr e ↦ rw e (refl, refl)
  ]

  -- A child within what remains keeps the commitment within the target.
  pub send_child-WithinTarget :
      (env : Env) (q price : ℤ) (type : OrderType) (b : AlgoBase W) (om : Option OrderManager)
      → committed b +ℤ q ≤ℤ b.parent.qty
      → WithinTarget b
      → WithinTarget (send_child env q price type b om).0
  unfolding send_child
  send_child-WithinTarget env q price type b none k w = elim (Bool-cases (leb_ℤ q (pos 0))) [
    | inl e ↦ rw e w
    | inr e ↦ rw e w
  ]
  send_child-WithinTarget env q price type b (some om) k w = elim (Bool-cases (leb_ℤ q (pos 0))) [
    | inl e ↦ rw e w
    | inr e ↦ rw e (
        note_child-WithinTarget (submit env om (child_request b q price type)).1 q b
          (nonneg_of_pos q (leb_ℤ→gt q (pos 0) e)) k w)
  ]

  pub send_child-frame :
      (env : Env) (q price : ℤ) (type : OrderType) (b : AlgoBase W) (om : Option OrderManager)
      → ((send_child env q price type b om).0.parent ≡ b.parent)
        × ((send_child env q price type b om).0.filled ≡ b.filled)
  unfolding send_child note_child
  send_child-frame env q price type b none = elim (Bool-cases (leb_ℤ q (pos 0))) [
    | inl e ↦ rw e (refl, refl)
    | inr e ↦ rw e (refl, refl)
  ]
  send_child-frame env q price type b (some om) = elim (Bool-cases (leb_ℤ q (pos 0))) [
    | inl e ↦ rw e (refl, refl)
    | inr e ↦ rw e (note_child-frame (submit env om (child_request b q price type)).1 q b)
  ]

  -- What remains is sent only within the target.
  pub remaining_quantity-room :
      (b : AlgoBase W) (q : ℤ)
      → pos 0 <ℤ q
      → q ≤ℤ remaining_quantity b (inflight b)
      → committed b +ℤ q ≤ℤ b.parent.qty
  unfolding remaining_quantity
  remaining_quantity-room b q h k = room b.parent.qty b.filled (inflight b) q h k

  pub remaining_quantity-exact :
      (b : AlgoBase W)
      → pos 0 <ℤ remaining_quantity b (inflight b)
      → committed b +ℤ remaining_quantity b (inflight b) ≡ b.parent.qty
  unfolding remaining_quantity
  remaining_quantity-exact b h = room_exact b.parent.qty b.filled (inflight b) h

  note_child-committed :
      (id : OrderIdRaw) (q : ℤ) (b : AlgoBase W)
      → (id == 0) ≡ false
      → lookup id b.children ≡ none
      → committed (note_child id q b) ≡ committed b +ℤ q
  unfolding note_child
  note_child-committed id q b e n = rw e (
      added b.filled q (sum_values (insert id q b.children)) (inflight b)
        (sum_values-insert_new id q b.children n))

  -- A child that the order manager takes under a new id is committed in full.
  pub send_child-committed :
      (env : Env) (q price : ℤ) (type : OrderType) (b : AlgoBase W) (om : OrderManager)
      → pos 0 <ℤ q
      → let id = (submit env om (child_request b q price type)).1 in
        (id == 0) ≡ false
        → lookup id b.children ≡ none
        → committed (send_child env q price type b (some om)).0 ≡ committed b +ℤ q
  unfolding send_child
  send_child-committed env q price type b om h e n =
      if-both (λ (r : AlgoBase W × Option OrderManager). committed r.0 ≡ committed b +ℤ q)
        (leb_ℤ q (pos 0)) _ _ (λ f. absurd (not_both q h f))
        (λ f. note_child-committed (submit env om (child_request b q price type)).1 q b e n)

  -- A fill of a child in flight moves its quantity from what is in flight to what is filled.
  pub on_fill-WithinTarget :
      (b : AlgoBase W) (o : Order) (qty r : ℤ)
      → lookup o.internal_id b.children ≡ some r
      → qty ≤ℤ r
      → remaining o ≡ r -ℤ qty
      → WithinTarget b
      → WithinTarget (on_fill b o qty)
  unfolding on_fill
  on_fill-WithinTarget b o qty r n h e w = elim (Bool-cases (is_filled o.status)) [
    | inl f ↦
        rw (n, f)
          (
            erase-AllNonneg o.internal_id b.children w.0,
            erased b.filled qty r (sum_values (erase o.internal_id b.children)) (inflight b)
                b.parent.qty (sum_values-erase o.internal_id r b.children w.0 n) h w.1,
          )
    | inr f ↦
        rw (n, f)
          (
            insert-AllNonneg o.internal_id (remaining o) b.children
                (left_nonneg qty r (remaining o) h e) w.0,
            shrunk b.filled qty r (remaining o)
                (sum_values (insert o.internal_id (remaining o) b.children)) (inflight b)
                b.parent.qty (sum_values-insert o.internal_id (remaining o) r b.children n) e w.1,
          )
  ]

  pub forget_child-WithinTarget :
      (b : AlgoBase W) (o : Order) → WithinTarget b → WithinTarget (forget_child b o)
  forget_child-WithinTarget b o w = (
    erase-AllNonneg o.internal_id b.children w.0,
    fewer b.filled (sum_values (erase o.internal_id b.children)) (inflight b) b.parent.qty
        (sum_values-erase_le o.internal_id b.children w.0) w.1,
  )
