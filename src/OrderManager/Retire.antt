-- ===== src/OrderManager/Retire.antt =====
-- Retirement keeps the invariant, and never meets a failed assertion of the pool.
use delta_assignment.Common.{
  ℕ, ◌≡◌, refl, ap, ◌∙◌, true, false, List, [], ◌∷◌, ◌++◌, none, some, length, ltb, remove, inl,
  inr, Bool-cases, Option-cases, ==_iff, ◌==◌, if◌then◌else◌, arith,
}
use delta_assignment.Common.Int.{ℤ, pos, ◌+ℤ◌, ◌-ℤ◌, ◌≤ℤ◌, ltb_ℤ, neg, +ℤ-zero, int_laws}
use delta_assignment.Common.Dict.{Dict, find_or, find_or-insert_self, find_or-insert_ne}
use delta_assignment.OrderId.{OrderIdRaw}
use delta_assignment.Order.{Side, Order, signed_qty, remaining}
use delta_assignment.Pool.{OrderPool, is_current, release}
use delta_assignment.Pool.Invariant
use delta_assignment.OrderManager.State.{OrderManager, slot_of}
use delta_assignment.OrderManager.Guards.{retire, trim_fifo, expire, free_slot, unindex}
use delta_assignment.OrderManager.Consistency.{Books, IsConsistent, contribution, current-slot_live}
use delta_assignment.OrderManager.Transitions.{lower, Books-release, Books-forget}

-- What a retirement keeps: the invariant, and that no assertion failed.
abbrev pub IsSound : OrderManager → OrderManager → Type 0
IsSound om om' = IsConsistent om' × (om'.stopped ≡ om.stopped)

release-some :
    (p : OrderPool) (id : OrderIdRaw)
    → Invariant.IsValid p
    → is_current p id ≡ true
    → (q : OrderPool) × (release p (slot_of id) ≡ some q)
release-some p id v c = elim (Option-cases (release p (slot_of id))) [
  | inl e ↦
      let dead : Invariant.Releases p (slot_of id) none =
        rw e at (Invariant.release-Releases p (slot_of id) v) in
      absurd (cc (current-slot_live p id c))
  | inr h ↦ h
]

free_slot-IsSound :
    (om : OrderManager) (gone : OrderIdRaw) (rest : List OrderIdRaw)
    → om.retired_fifo ≡ rest
    → is_current om.pool gone ≡ true
    → Books om.pool om.live (gone ∷ rest) om.pending_signed
    → IsSound om (free_slot gone om)
free_slot-IsSound om gone rest e c b =
    let (q, freed) = release-some om.pool gone b.pool_valid c in
    rw (freed, free_slot)
      (rw e (Books-release om.pool q om.live rest om.pending_signed gone b freed), refl)

expire-IsSound :
    (om : OrderManager) (fs : List OrderIdRaw)
    → om.retired_fifo ≡ fs
    → IsConsistent om
    → IsSound om (expire fs om)
expire-IsSound om [] e b = (b, refl)
expire-IsSound om (gone ∷ rest) e b = elim (Bool-cases (is_current om.pool gone)) [
  | inl c ↦ rw c (
      free_slot-IsSound
        (record om {
          retired_fifo = rest;
          expected_false_cancel_rejects = remove gone om.expected_false_cancel_rejects;
        })
        gone rest refl c b')
  | inr c ↦ rw c (Books-forget om.pool om.live rest om.pending_signed gone b', refl)
]
  where
    b' : Books om.pool om.live (gone ∷ rest) om.pending_signed
    b' = rw e at b

pub trim_fifo-IsSound : (om : OrderManager) → IsConsistent om → IsSound om (trim_fifo om)
unfolding trim_fifo
trim_fifo-IsSound om b = elim (Bool-cases (ltb om.retired_grace (length om.retired_fifo))) [
  | inl e ↦ rw e (expire-IsSound om om.retired_fifo refl b)
  | inr e ↦ rw e (b, refl)
]

-- The pending quantities after an order of `rem` was retired.
abbrev pub unwound : ℕ → ℤ → Side → Dict ℤ → Dict ℤ
unwound inst rem side pending =
    if ltb_ℤ (pos 0) rem then lower inst (signed_qty side rem) pending else pending

unindex-IsSound :
    (om : OrderManager) (id : OrderIdRaw) (inst : ℕ) (rem : ℤ) (side : Side)
    → Books om.pool
        (remove id om.live)
        (om.retired_fifo ++ id ∷ [])
        (unwound inst rem side om.pending_signed)
    → IsSound om (unindex id inst rem side om)
unindex-IsSound om id inst rem side b = elim (Bool-cases (ltb_ℤ (pos 0) rem)) [
  | inl e ↦
      let after : Books om.pool (remove id om.live) (om.retired_fifo ++ id ∷ [])
          (lower inst (signed_qty side rem) om.pending_signed) =
        rw e at b in
      rw e (after, refl)
  | inr e ↦
      let after : Books om.pool (remove id om.live) (om.retired_fifo ++ id ∷ []) om.pending_signed =
        rw e at b in
      rw e (after, refl)
]

-- Retirement keeps the invariant, if it holds of the books with the order moved.
pub retire-IsSound :
    (om : OrderManager) (id : OrderIdRaw) (inst : ℕ) (rem : ℤ) (side : Side)
    → Books om.pool
        (remove id om.live)
        (om.retired_fifo ++ id ∷ [])
        (unwound inst rem side om.pending_signed)
    → IsSound om (retire id inst rem side om)
unfolding retire
retire-IsSound om id inst rem side b =
    let first = unindex-IsSound om id inst rem side b in
    let last = trim_fifo-IsSound (unindex id inst rem side om) first.0 in (last.0, last.1 ∙ first.1)

-- A quantity taken off one instrument.
pub lower-change :
    (i inst : ℕ) (q : ℤ) (pending : Dict ℤ)
    → find_or (pos 0) inst (lower i q pending) +ℤ (if i == inst then q else pos 0)
      ≡ find_or (pos 0) inst pending
lower-change i inst q pending = elim (Bool-cases (i == inst)) [
  | inl e ↦
      let same : i ≡ inst = (==_iff i inst).0 e in
      rw (e, ← same, find_or-insert_self (pos 0) i (find_or (pos 0) i pending -ℤ q) pending)
        (omega int_laws)
  | inr e ↦
      rw
        (
          e,
          find_or-insert_ne (pos 0) i inst (find_or (pos 0) i pending -ℤ q) pending (ground arith),
        )
        (omega int_laws)
]

no_more : (r : ℤ) → pos 0 ≤ℤ r → ltb_ℤ (pos 0) r ≡ false → r ≡ pos 0
no_more r h e = ground arith

signed_qty-zero : (s : Side) → signed_qty s (pos 0) ≡ pos 0
unfolding neg
signed_qty-zero Side.buy = refl
signed_qty-zero Side.sell = refl

pub contribution-zero : (inst : ℕ) (o : Order) → remaining o ≡ pos 0 → contribution inst o ≡ pos 0
contribution-zero inst o h = elim (Bool-cases (o.instrument == inst)) [
  | inl e ↦ rw e (ap (signed_qty o.side) h ∙ signed_qty-zero o.side)
  | inr e ↦ rw e refl
]

nothing_left :
    (inst : ℕ) (o : Order) (q : ℤ)
    → pos 0 ≤ℤ remaining o
    → ltb_ℤ (pos 0) (remaining o) ≡ false
    → q +ℤ contribution inst o ≡ q
nothing_left inst o q h e =
    ap (λ (c : ℤ). q +ℤ c) (contribution-zero inst o (no_more (remaining o) h e)) ∙ +ℤ-zero q

-- The pending quantities after the retirement of a working order.
pub unwound-change :
    (inst : ℕ) (o : Order) (pending : Dict ℤ)
    → pos 0 ≤ℤ remaining o
    → find_or (pos 0) inst (unwound o.instrument (remaining o) o.side pending)
        +ℤ contribution inst o
      ≡ find_or (pos 0) inst pending
unwound-change inst o pending h = elim (Bool-cases (ltb_ℤ (pos 0) (remaining o))) [
  | inl e ↦ rw e (lower-change o.instrument inst (signed_qty o.side (remaining o)) pending)
  | inr e ↦ rw e (nothing_left inst o (find_or (pos 0) inst pending) h e)
]
