-- ===== src/OrderManager/Redelivery.antt =====
-- Fills delivered again later, with fills of any orders in between (OrderManager::on_fill and
-- OrderManager::retire of src/OrderManager.cpp).
use delta_assignment.Common.{
  ℕ, suc, zero, ◌+◌, ◌%◌, ◌^◌, ◌≡◌, ◌≢◌, refl, sym, ap, subst, ◌∙◌, inl, inr, Bool, true, false,
  if◌then◌else◌, ◌==◌, ==_iff, add, contains, contains-add, remove, List, [], ◌∷◌, Option, none,
  some, get_or, set, get_or-set_ne, if-both, Bool-cases, Option-cases, arith, ltb, length,
}
use delta_assignment.Common.Int.{ℤ, pos}
use delta_assignment.Common.Dict.{Dict, lookup, erase, find_or, lookup-insert, find_or-lookup}
use delta_assignment.OrderId.{OrderIdRaw}
use delta_assignment.Order.{Order, fresh_order, is_terminal}
use delta_assignment.Pool.{OrderPool, release, is_current, generation_of}
use delta_assignment.Pool.Invariant
use delta_assignment.OrderManager.Types.{ValidationResult}
use delta_assignment.OrderManager.State.{OrderManager, slot_of, order_ref}
use delta_assignment.OrderManager.Guards.{
  validate, seen_in, retire, trim_fifo, expire, free_slot, unindex,
}
use delta_assignment.OrderManager.Consistency.{set_order-IsValid, is_current-set_order}
use delta_assignment.OrderManager.Invariant.{validate-ok}
use delta_assignment.OrderManager.Events.{
  on_fill, fill_context, apply_fill, tell_fill, book_fill, fill_order, finish_fill, is_final,
  refuse_fill, drop_event, when_ok,
}
use delta_assignment.OrderManager.FillLaws.{release-slots}
use delta_assignment.OrderManager.Replay.{
  IsSpent, validate-IsSpent, on_fill-IsSpent, final-is_terminal,
}

get_or-set-false : (bs : List Bool) (i : ℕ) → get_or (set bs i false) i false ≡ false
get_or-set-false [] i = refl
get_or-set-false (b ∷ bs) zero = refl
get_or-set-false (b ∷ bs) (suc i) = get_or-set-false bs i

lookup-erase_ne :
    (k j : ℕ) (m : Dict (List ℕ)) → (j == k) ≡ false → lookup j (erase k m) ≡ lookup j m
lookup-erase_ne k j [] h = refl
lookup-erase_ne k j (e ∷ m) h = ground (arith, lookup-erase_ne k j m h)

-- Giving a slot back makes no stale id current.
release-stale :
    (p q : OrderPool) (s : ℕ) (id : OrderIdRaw)
    → release p s ≡ some q
    → is_current p id ≡ false
    → is_current q id ≡ false
unfolding release is_current
release-stale p q s id e h = elim (Bool-cases (s == slot_of id)) [
  | inl c ↦
      let same : s ≡ slot_of id = (==_iff s (slot_of id)).0 c in
      ground (arith, get_or-set-false p.allocated s)
  | inr c ↦
      let other : s ≢ slot_of id = λ n. absurd (let t = (==_iff s (slot_of id)).1 n in cc) in
      ground (
        arith,
        get_or-set_ne p.allocated s (slot_of id) false false other,
        get_or-set_ne p.generation s (slot_of id) ((generation_of p s + 1) % 2 ^ 16) 0 other,
      )
]

-- What the end of a retirement keeps.
abbrev Keeps : OrderManager → OrderManager → Type 0
Keeps om om' =
    (om'.pool.slots ≡ om.pool.slots)
    × (om'.trade_ids ≡ om.trade_ids)
    × (Invariant.IsValid om.pool → Invariant.IsValid om'.pool)
    × ((id : OrderIdRaw) → is_current om.pool id ≡ false → is_current om'.pool id ≡ false)

release-IsValid :
    (p q : OrderPool) (s : ℕ) → release p s ≡ some q → Invariant.IsValid p → Invariant.IsValid q
release-IsValid p q s e v =
    let done : Invariant.Releases p s (some q) = rw e at (Invariant.release-Releases p s v) in
    done.4

free_slot-Keeps : (gone : OrderIdRaw) (om : OrderManager) → Keeps om (free_slot gone om)
free_slot-Keeps gone om = elim (Option-cases (release om.pool (slot_of gone))) [
  | inl e ↦ rw (e, free_slot) (refl, refl, (λ v. v), (λ id h. h))
  | inr (q, e) ↦
      rw (e, free_slot)
        (
          release-slots om.pool q (slot_of gone) e,
          refl,
          release-IsValid om.pool q (slot_of gone) e,
          (λ id h. release-stale om.pool q (slot_of gone) id e h),
        )
]

expire-Keeps : (fs : List OrderIdRaw) (om : OrderManager) → Keeps om (expire fs om)
expire-Keeps [] om = (refl, refl, (λ v. v), (λ id h. h))
expire-Keeps (gone ∷ rest) om = elim (Bool-cases (is_current om.pool gone)) [
  | inl e ↦ rw e (
      free_slot-Keeps gone (record om {
        retired_fifo = rest;
        expected_false_cancel_rejects = remove gone om.expected_false_cancel_rejects;
      }))
  | inr e ↦ rw e (refl, refl, (λ v. v), (λ id h. h))
]

trim_fifo-Keeps : (om : OrderManager) → Keeps om (trim_fifo om)
unfolding trim_fifo
trim_fifo-Keeps om = elim (Bool-cases (ltb om.retired_grace (length om.retired_fifo))) [
  | inl e ↦ rw e (expire-Keeps om.retired_fifo om)
  | inr e ↦ rw e (refl, refl, (λ v. v), (λ id h. h))
]

-- The end of a completing fill forgets the trades of that order and of no other.
finish_fill-keeps :
    (id : OrderIdRaw) (om : OrderManager)
    → let om' = finish_fill id om in
      (om'.pool.slots ≡ om.pool.slots)
      × (om'.trade_ids ≡ erase id om.trade_ids)
      × (Invariant.IsValid om.pool → Invariant.IsValid om'.pool)
      × ((jd : OrderIdRaw) → is_current om.pool jd ≡ false → is_current om'.pool jd ≡ false)
unfolding finish_fill retire
finish_fill-keeps id om = elim (Bool-cases (order_ref om id).pending_cancel) [
  | inl e ↦ rw e (trim_fifo-Keeps _)
  | inr e ↦
      rw e (
        trim_fifo-Keeps (unindex id (order_ref om id).instrument (pos 0) (order_ref om id).side om))
]

order_of :
    (os os' : List Order) (s : ℕ)
    → os' ≡ os
    → is_terminal (get_or os s fresh_order).status ≡ true
    → is_terminal (get_or os' s fresh_order).status ≡ true
order_of os os' s e h = ap (λ (l : List Order). is_terminal (get_or l s fresh_order).status) e ∙ h

-- The end of a completing fill of an order that is then terminal.
finish_fill-IsSpent :
    (jd id : OrderIdRaw) (trade : ℕ) (om : OrderManager)
    → is_terminal (order_ref (finish_fill jd om) jd).status ≡ true
    → IsSpent om id trade
    → IsSpent (finish_fill jd om) id trade
finish_fill-IsSpent jd id trade om t (inl stale) = inl ((finish_fill-keeps jd om).3 id stale)
finish_fill-IsSpent jd id trade om t (inr (inl done)) = inr (
    inl (
      order_of om.pool.slots (finish_fill jd om).pool.slots (slot_of id) (finish_fill-keeps jd om).0
        done))
finish_fill-IsSpent jd id trade om t (inr (inr seen)) = elim (Bool-cases (id == jd)) [
  | inl e ↦ inr (
      inl (
        subst (λ (i : OrderIdRaw). is_terminal (order_ref (finish_fill jd om) i).status ≡ true)
          (sym ((==_iff id jd).0 e)) t))
  | inr e ↦ inr (
      inr (
        ap (λ (m : Dict (List ℕ)). seen_in (lookup id m) trade) (finish_fill-keeps jd om).1
        ∙ ap (λ (found : Option (List ℕ)). seen_in found trade)
            (lookup-erase_ne jd id om.trade_ids e)
        ∙ seen))
]

seen_in-add :
    (found : Option (List ℕ)) (a trade : ℕ)
    → seen_in found trade ≡ true
    → contains trade (add a (elim found [ none ↦ [] | some v ↦ v ])) ≡ true
seen_in-add none a trade h = cc
seen_in-add (some seen) a trade h = contains-add a trade seen h

-- A fill that is booked for an order leaves what is spent spent.
tell_fill-IsSpent :
    (om : OrderManager) (jd id : OrderIdRaw) (qty price : ℤ) (other : ℕ) (ts : ℤ) (trade : ℕ)
    → validate om jd (fill_context other qty price) ≡ ValidationResult.ok
    → IsSpent om id trade
    → IsSpent (tell_fill jd qty price other ts om) id trade
unfolding tell_fill book_fill
tell_fill-IsSpent om jd id qty price other ts trade h (inl stale) = inl (
    is_current-set_order om.pool (slot_of jd) (fill_order (order_ref om jd) qty price ts) id
    ∙ stale)
tell_fill-IsSpent om jd id qty price other ts trade h (inr (inl done)) =
    let working = (validate-ok om jd (fill_context other qty price) h).1 in
    let apart : slot_of jd ≢ slot_of id = λ e. absurd (
      let there =
        ap (λ (s : ℕ). is_terminal (get_or om.pool.slots s fresh_order).status) e ∙ done in
      cc) in
    inr (
      inl (
        ap (λ (o : Order). is_terminal o.status)
          (get_or-set_ne om.pool.slots (slot_of jd) (slot_of id)
            (fill_order (order_ref om jd) qty price ts) fresh_order apart)
        ∙ done))
tell_fill-IsSpent om jd id qty price other ts trade h (inr (inr seen)) =
    let grown = add other (find_or [] jd om.trade_ids) in
    let HasTrade : Option (List ℕ) → Type 0 = λ found. seen_in found trade ≡ true in
    inr (
      inr (
        subst HasTrade (sym (lookup-insert jd id grown om.trade_ids)) (
          if-both HasTrade (id == jd) (some grown) (lookup id om.trade_ids)
            (λ e.
              ap (λ (l : List ℕ). contains trade (add other l)) (find_or-lookup [] jd om.trade_ids)
              ∙ seen_in-add (lookup jd om.trade_ids) other trade (
                  ap (λ (i : ℕ). seen_in (lookup i om.trade_ids) trade) (sym ((==_iff id jd).0 e))
                  ∙ seen))
            (λ e. seen))))

tell_fill-IsValid :
    (om : OrderManager) (id : OrderIdRaw) (qty price : ℤ) (trade : ℕ) (ts : ℤ)
    → Invariant.IsValid om.pool
    → Invariant.IsValid (tell_fill id qty price trade ts om).pool
unfolding tell_fill book_fill
tell_fill-IsValid om id qty price trade ts v =
    set_order-IsValid om.pool (slot_of id) (fill_order (order_ref om id) qty price ts) v

IsValid-by :
    (b : Bool) (om : OrderManager) (id : OrderIdRaw) (qty price : ℤ) (trade : ℕ) (ts : ℤ)
    → Invariant.IsValid om.pool
    → let told = tell_fill id qty price trade ts om in
      Invariant.IsValid (if b then finish_fill id told else told).pool
IsValid-by true om id qty price trade ts v =
    (finish_fill-keeps id (tell_fill id qty price trade ts om)).2
      (tell_fill-IsValid om id qty price trade ts v)
IsValid-by false om id qty price trade ts v = tell_fill-IsValid om id qty price trade ts v

on_fill-IsValid :
    (om : OrderManager) (id : OrderIdRaw) (qty price : ℤ) (trade : ℕ) (ts : ℤ)
    → Invariant.IsValid om.pool
    → validate om id (fill_context trade qty price) ≡ ValidationResult.ok
    → Invariant.IsValid (on_fill om id qty price trade ts).pool
unfolding on_fill apply_fill
on_fill-IsValid om id qty price trade ts v h =
    rw h (IsValid-by (is_final (order_ref om id) qty) om id qty price trade ts v)

refuse_fill-same :
    (vr : ValidationResult) (id : OrderIdRaw) (om : OrderManager)
    → let om' = refuse_fill vr id (drop_event om) in
      (om'.pool ≡ om.pool) × (om'.trade_ids ≡ om.trade_ids)
refuse_fill-same vr id om = ground arith

-- What holds of the manager between two fills: its pool is valid, and the trade is spent.
abbrev IsPast : OrderManager → OrderIdRaw → ℕ → Type 0
IsPast om id trade = Invariant.IsValid om.pool × IsSpent om id trade

IsPast-by :
    (b : Bool) (om : OrderManager) (jd id : OrderIdRaw) (qty price : ℤ) (other : ℕ) (ts : ℤ)
    (trade : ℕ)
    → IsPast om id trade
    → validate om jd (fill_context other qty price) ≡ ValidationResult.ok
    → is_final (order_ref om jd) qty ≡ b
    → let told = tell_fill jd qty price other ts om in
      IsPast (if b then finish_fill jd told else told) id trade
IsPast-by true om jd id qty price other ts trade (v, spent) h final =
    let told = tell_fill jd qty price other ts om in
    let ended = final-is_terminal om jd qty price other ts v h final in
    (
      (finish_fill-keeps jd told).2 (tell_fill-IsValid om jd qty price other ts v),
      finish_fill-IsSpent jd id trade told ended
          (tell_fill-IsSpent om jd id qty price other ts trade h spent),
    )
IsPast-by false om jd id qty price other ts trade (v, spent) h part = (
  tell_fill-IsValid om jd qty price other ts v,
  tell_fill-IsSpent om jd id qty price other ts trade h spent,
)

same-IsPast :
    (om om' : OrderManager) (id : OrderIdRaw) (trade : ℕ)
    → (om'.pool ≡ om.pool) × (om'.trade_ids ≡ om.trade_ids)
    → IsPast om id trade
    → IsPast om' id trade
same-IsPast om om' id trade (p, t) past =
    let Past : OrderPool → Dict (List ℕ) → Type 0 =
      λ pool trades. IsPast (record om { pool = pool; trade_ids = trades }) id trade in
    subst (λ (pool : OrderPool). Past pool om'.trade_ids) (sym p)
      (subst (λ (trades : Dict (List ℕ)). Past om.pool trades) (sym t) past)

IsPast-when :
    (vr : ValidationResult) (om accepted : OrderManager) (jd id : OrderIdRaw) (trade : ℕ)
    → IsPast om id trade
    → (vr ≡ ValidationResult.ok → IsPast accepted id trade)
    → IsPast (when_ok vr accepted (refuse_fill vr jd (drop_event om))) id trade
IsPast-when ValidationResult.ok om accepted jd id trade past f = f refl
IsPast-when ValidationResult.unknown_order om accepted jd id trade past f =
    same-IsPast om (refuse_fill ValidationResult.unknown_order jd (drop_event om)) id trade
      (refuse_fill-same ValidationResult.unknown_order jd om) past
IsPast-when ValidationResult.terminal_state om accepted jd id trade past f = past
IsPast-when ValidationResult.duplicate_trade om accepted jd id trade past f = past
IsPast-when ValidationResult.stale_cumulative om accepted jd id trade past f = past
IsPast-when ValidationResult.field_mismatch om accepted jd id trade past f = past

on_fill-IsPast :
    (om : OrderManager) (jd id : OrderIdRaw) (qty price : ℤ) (other : ℕ) (ts : ℤ) (trade : ℕ)
    → IsPast om id trade
    → IsPast (on_fill om jd qty price other ts) id trade
unfolding on_fill apply_fill
on_fill-IsPast om jd id qty price other ts trade past =
    IsPast-when (validate om jd (fill_context other qty price)) om _ jd id trade past (λ h.
      IsPast-by (is_final (order_ref om jd) qty) om jd id qty price other ts trade past h refl)

-- What a fill that came is.
pub record Fill : Type 0 where
  pub id : OrderIdRaw
  pub qty : ℤ
  pub price : ℤ
  pub trade : ℕ
  pub ts : ℤ

abbrev pub fill_all : List Fill → OrderManager → OrderManager
fill_all [] om = om
fill_all (f ∷ fs) om = fill_all fs (on_fill om f.id f.qty f.price f.trade f.ts)

fill_all-IsPast :
    (fs : List Fill) (om : OrderManager) (id : OrderIdRaw) (trade : ℕ)
    → IsPast om id trade
    → IsPast (fill_all fs om) id trade
fill_all-IsPast [] om id trade past = past
fill_all-IsPast (f ∷ fs) om id trade past =
    fill_all-IsPast fs (on_fill om f.id f.qty f.price f.trade f.ts) id trade
      (on_fill-IsPast om f.id id f.qty f.price f.trade f.ts trade past)

-- On a valid pool, after a fill was applied and then any other fills came, of the same or of other
-- orders, applied or not, no fill of the same order with its trade id validates, whatever its
-- quantity and price, also when the order was completed or its slot was freed in between.
pub validate-fill_all :
    (om : OrderManager) (f : Fill) (between : List Fill) (qty price : ℤ)
    → Invariant.IsValid om.pool
    → validate om f.id (fill_context f.trade f.qty f.price) ≡ ValidationResult.ok
    → validate (fill_all (f ∷ between) om) f.id (fill_context f.trade qty price)
      ≢ ValidationResult.ok
validate-fill_all om f between qty price v h =
    let first : IsPast (on_fill om f.id f.qty f.price f.trade f.ts) f.id f.trade = (
      on_fill-IsValid om f.id f.qty f.price f.trade f.ts v h,
      on_fill-IsSpent om f.id f.qty f.price f.trade f.ts v h,
    ) in
    let past =
      fill_all-IsPast between (on_fill om f.id f.qty f.price f.trade f.ts) f.id f.trade first in
    validate-IsSpent (fill_all (f ∷ between) om) f.id f.trade qty price past.1
