-- ===== src/OrderManager/Transitions.antt =====
-- The four changes that the operations make to the books: an order is updated, retired, its slot is
-- given back, or a new one is admitted. Each keeps the invariant.
use delta_assignment.Common.{
  ℕ, ◌+◌, ◌≡◌, refl, sym, ap, subst, ◌∙◌, true, false, List, [], ◌∷◌, ◌++◌, contains, inl, inr,
  some, Bool-cases, ==_iff, ==_refl, ◌==◌, remove, add, set, get_or, get_or-set_ne, ◌%◌, ◌^◌,
  contains-remove_ne, arith,
}
use mathlib.Core.Bool.{false≢true}
use delta_assignment.Common.Int.{ℤ, pos, ◌+ℤ◌, ◌-ℤ◌, +ℤ_cancel, +ℤ_comm}
use delta_assignment.Common.Dict.{Dict, find_or, insert}
use delta_assignment.OrderId.{OrderIdRaw}
use delta_assignment.Order.{Order, fresh_order, is_terminal}
use delta_assignment.Pool.{
  OrderPool, is_current, order_at, set_order, slot_live, release, acquire, take_slot,
}
use delta_assignment.Pool.Invariant
use delta_assignment.OrderManager.State.{slot_of}
use delta_assignment.OrderManager.Consistency.{
  Books, IsWorking, contribution, slots_of, SameOff, set_order-SameOff, IsLive-SameOff,
  IsRetired-SameOff, open_quantity-SameOff, order_at-set_order, is_current-set_order,
  current-slot_live, set_order-IsValid, working-not_retired, live-IsWorking, IsRetired-push,
  dead-not_live, dead-not_retired, terminal-not_live,
}
use delta_assignment.OrderManager.LiveIndex.{
  contains-slots_of, slots_of-remove, IsLive-remove, open_quantity-remove, IsLive-update,
  open_quantity-update,
}

-- A pending quantity corrected by what one order has less.
abbrev pub lower : ℕ → ℤ → Dict ℤ → Dict ℤ
lower inst q pending = insert inst (find_or (pos 0) inst pending -ℤ q) pending

module _ (p : OrderPool) (live fifo : List OrderIdRaw) (pending : Dict ℤ)
    (b : Books p live fifo pending) (id : OrderIdRaw) (here : contains id live ≡ true) where
  abbrev old : Order
  old = order_at p (slot_of id)

  working : (is_current p id ≡ true) × IsWorking id (order_at p (slot_of id))
  working = live-IsWorking p id live b.live_working here

  written : (o : Order) → order_at (set_order p (slot_of id) o) (slot_of id) ≡ o
  written o = order_at-set_order p (slot_of id) o b.pool_valid (current-slot_live p id working.0)

  unretired : contains (slot_of id) (slots_of fifo) ≡ false
  unretired = working-not_retired p (slot_of id) fifo b.retired_terminal working.1.1

  -- An order updated in place by one that still works.
  pub Books-update :
      (o : Order) (pending' : Dict ℤ)
      → IsWorking id o
      → ((inst : ℕ)
          → find_or (pos 0) inst pending' +ℤ contribution inst (order_at p (slot_of id))
            ≡ find_or (pos 0) inst pending +ℤ contribution inst o)
      → Books (set_order p (slot_of id) o) live fifo pending'
  Books-update o pending' w change = record {
    pool_valid = set_order-IsValid p (slot_of id) o b.pool_valid;
    live_working = IsLive-update p b.pool_valid id o live here w b.live_working;
    retired_terminal =
        IsRetired-SameOff (set_order-SameOff p (slot_of id) o) fifo unretired b.retired_terminal;
    complete = complete;
    pending_sum = λ inst. +ℤ_cancel _ _ (contribution inst old) (
        change inst
        ∙ ap (λ (t : ℤ). t +ℤ contribution inst o) (b.pending_sum inst)
        ∙ sym (open_quantity-update p b.pool_valid id o inst live here b.live_working));
  }
    where
      complete :
          (s : ℕ)
          → slot_live (set_order p (slot_of id) o) s ≡ true
          → is_terminal (order_at (set_order p (slot_of id) o) s).status ≡ false
          → (contains (order_at (set_order p (slot_of id) o) s).internal_id live ≡ true)
            × (slot_of (order_at (set_order p (slot_of id) o) s).internal_id ≡ s)
      complete s = elim (Bool-cases (slot_of id == s)) [
        | inl e ↦
            let same : slot_of id ≡ s = (==_iff (slot_of id) s).0 e in
            rw (← same, written o, w.0) (λ l t. (here, refl))
        | inr e ↦ rw ((set_order-SameOff p (slot_of id) o).order s e) (b.complete s)
      ]

  -- An order that ends: it leaves the live index for the FIFO, and what it had left is unwound.
  pub Books-retire :
      (o : Order) (pending' : Dict ℤ)
      → is_terminal o.status ≡ true
      → ((inst : ℕ)
          → find_or (pos 0) inst pending' +ℤ contribution inst (order_at p (slot_of id))
            ≡ find_or (pos 0) inst pending)
      → Books (set_order p (slot_of id) o) (remove id live) (fifo ++ id ∷ []) pending'
  Books-retire o pending' t change = record {
    pool_valid = set_order-IsValid p (slot_of id) o b.pool_valid;
    live_working =
        IsLive-SameOff off (remove id live) gone (IsLive-remove p id live b.live_working);
    retired_terminal =
        IsRetired-push _ id fifo (is_current-set_order p (slot_of id) o id ∙ working.0)
          (rw (written o) t) unretired (IsRetired-SameOff off fifo unretired b.retired_terminal);
    complete = complete;
    pending_sum = λ inst. rw (open_quantity-SameOff off inst (remove id live) gone) (
        +ℤ_cancel _ _ (contribution inst old) (
          change inst
          ∙ b.pending_sum inst
          ∙ open_quantity-remove p inst id live b.live_working here
          ∙ +ℤ_comm (contribution inst old) _));
  }
    where
      off : SameOff (slot_of id) p (set_order p (slot_of id) o)
      off = set_order-SameOff p (slot_of id) o

      gone : contains (slot_of id) (slots_of (remove id live)) ≡ false
      gone = slots_of-remove p id live b.live_working here

      stays :
          (s j : ℕ)
          → (slot_of id == s) ≡ false
          → (contains j live ≡ true) × (slot_of j ≡ s)
          → (contains j (remove id live) ≡ true) × (slot_of j ≡ s)
      stays s j e h = elim (Bool-cases (id == j)) [
        | inl k ↦
            let same : id ≡ j = (==_iff id j).0 k in
            let hit : (slot_of id == s) ≡ true = rw same ((==_iff (slot_of j) s).1 h.1) in cc
        | inr k ↦ (contains-remove_ne id j live (ground arith) ∙ h.0, h.1)
      ]

      complete :
          (s : ℕ)
          → slot_live (set_order p (slot_of id) o) s ≡ true
          → is_terminal (order_at (set_order p (slot_of id) o) s).status ≡ false
          → (contains (order_at (set_order p (slot_of id) o) s).internal_id (remove id live) ≡ true)
            × (slot_of (order_at (set_order p (slot_of id) o) s).internal_id ≡ s)
      complete s = elim (Bool-cases (slot_of id == s)) [
        | inl e ↦
            let same : slot_of id ≡ s = (==_iff (slot_of id) s).0 e in
            rw (← same, written o) (λ l n. absurd (false≢true (sym n ∙ t)))
        | inr e ↦ rw (off.order s e) (λ l n. stays s _ e (b.complete s l n))
      ]

contains-later : (a x : ℕ) (xs : List ℕ) → contains a xs ≡ true → contains a (x ∷ xs) ≡ true
contains-later a x xs h = ground arith

contains-slots_of_absent :
    (id : OrderIdRaw) (ids : List OrderIdRaw)
    → contains (slot_of id) (slots_of ids) ≡ false
    → contains id ids ≡ false
contains-slots_of_absent id ids h = ground (arith, contains-slots_of id ids)

release-SameOff : (p q : OrderPool) (s : ℕ) → release p s ≡ some q → SameOff s p q
unfolding release is_current
release-SameOff p q s e = record {
  order = λ t n. ground arith;
  allocated = λ t n. ground (arith, get_or-set_ne p.allocated s t false false);
  current = λ id n. ground (
    arith,
    get_or-set_ne p.allocated s (slot_of id) false false,
    get_or-set_ne p.generation s (slot_of id) ((get_or p.generation s 0 + 1) % 2 ^ 16) 0,
  );
}

-- The slot of the oldest retired order is given back.
pub Books-release :
    (p q : OrderPool) (live rest : List OrderIdRaw) (pending : Dict ℤ) (gone : OrderIdRaw)
    → Books p live (gone ∷ rest) pending
    → release p (slot_of gone) ≡ some q
    → Books q live rest pending
Books-release p q live rest pending gone b e = record {
  pool_valid = freed.4;
  live_working = IsLive-SameOff off live unused b.live_working;
  retired_terminal = IsRetired-SameOff off rest b.retired_terminal.2 b.retired_terminal.3;
  complete = complete;
  pending_sum = λ inst. b.pending_sum inst ∙ sym (open_quantity-SameOff off inst live unused);
}
  where
    s : ℕ
    s = slot_of gone

    off : SameOff (slot_of gone) p q
    off = release-SameOff p q (slot_of gone) e

    freed : Invariant.Releases p (slot_of gone) (some q)
    freed = rw e at (Invariant.release-Releases p (slot_of gone) b.pool_valid)

    unused : contains (slot_of gone) (slots_of live) ≡ false
    unused = terminal-not_live p (slot_of gone) live b.retired_terminal.1 b.live_working

    complete :
        (t : ℕ)
        → slot_live q t ≡ true
        → is_terminal (order_at q t).status ≡ false
        → (contains (order_at q t).internal_id live ≡ true)
          × (slot_of (order_at q t).internal_id ≡ t)
    complete t = elim (Bool-cases (slot_of gone == t)) [
      | inl k ↦
          let same : slot_of gone ≡ t = (==_iff (slot_of gone) t).0 k in
          rw (← same) (λ l n. absurd (false≢true (sym freed.1 ∙ l)))
      | inr k ↦ rw (off.order t k, off.allocated t k) (b.complete t)
    ]

-- A retired id that is no longer current is dropped from the FIFO.
pub Books-forget :
    (p : OrderPool) (live rest : List OrderIdRaw) (pending : Dict ℤ) (gone : OrderIdRaw)
    → Books p live (gone ∷ rest) pending
    → Books p live rest pending
Books-forget p live rest pending gone b = record {
  pool_valid = b.pool_valid;
  live_working = b.live_working;
  retired_terminal = b.retired_terminal.3;
  complete = b.complete;
  pending_sum = b.pending_sum;
}

acquire-SameOff :
    (p q : OrderPool) (s : ℕ) (o : Order) (fs : List ℕ)
    → take_slot p fs ≡ some (s, q)
    → SameOff s p (set_order q s o)
unfolding is_current
acquire-SameOff p q s o [] e = cc
acquire-SameOff p q s o (f ∷ fs) e = record {
  order = λ t n. ground (
    arith,
    get_or-set_ne p.slots f t fresh_order fresh_order,
    get_or-set_ne (set p.slots f fresh_order) f t o fresh_order,
  );
  allocated = λ t n. ground (arith, get_or-set_ne p.allocated f t true false);
  current = λ id n. ground (arith, get_or-set_ne p.allocated f (slot_of id) true false);
}

-- A new order in a slot that was free.
pub Books-admit :
    (p q : OrderPool) (live fifo : List OrderIdRaw) (pending pending' : Dict ℤ) (id : OrderIdRaw)
    (o : Order)
    → Books p live fifo pending
    → acquire p ≡ some (slot_of id, q)
    → is_current q id ≡ true
    → IsWorking id o
    → ((inst : ℕ)
        → find_or (pos 0) inst pending' ≡ find_or (pos 0) inst pending +ℤ contribution inst o)
    → Books (set_order q (slot_of id) o) (add id live) fifo pending'
unfolding acquire
Books-admit p q live fifo pending pending' id o b e c w change =
    rw (contains-slots_of_absent id live unused) (record {
      pool_valid = set_order-IsValid q (slot_of id) o taken.5;
      live_working = (
        is_current-set_order q (slot_of id) o id ∙ c,
        rw written w,
        unused,
        IsLive-SameOff off live unused b.live_working,
      );
      retired_terminal =
          IsRetired-SameOff off fifo
            (dead-not_retired p (slot_of id) fifo taken.1 b.retired_terminal) b.retired_terminal;
      complete = complete;
      pending_sum = λ inst.
          change inst
          ∙ rw (written, open_quantity-SameOff off inst live unused, b.pending_sum inst)
              (+ℤ_comm _ _);
    })
  where
    taken : Invariant.Acquires p (some (slot_of id, q))
    taken = rw e at (Invariant.acquire-Acquires p b.pool_valid)

    off : SameOff (slot_of id) p (set_order q (slot_of id) o)
    off = acquire-SameOff p q (slot_of id) o p.free_list e

    unused : contains (slot_of id) (slots_of live) ≡ false
    unused = dead-not_live p (slot_of id) live taken.1 b.live_working

    written : order_at (set_order q (slot_of id) o) (slot_of id) ≡ o
    written = order_at-set_order q (slot_of id) o taken.5 taken.2

    complete :
        (s : ℕ)
        → slot_live (set_order q (slot_of id) o) s ≡ true
        → is_terminal (order_at (set_order q (slot_of id) o) s).status ≡ false
        → (contains (order_at (set_order q (slot_of id) o) s).internal_id (id ∷ live) ≡ true)
          × (slot_of (order_at (set_order q (slot_of id) o) s).internal_id ≡ s)
    complete s = elim (Bool-cases (slot_of id == s)) [
      | inl k ↦
          let same : slot_of id ≡ s = (==_iff (slot_of id) s).0 k in
          rw (← same, written, w.0) (λ l n. (rw (==_refl id), refl))
      | inr k ↦ λ l n.
          let before =
            b.complete s (sym (off.allocated s k) ∙ l)
              (sym (ap (λ (x : Order). is_terminal x.status) (off.order s k)) ∙ n) in
          subst
            (λ (x : Order).
              (contains x.internal_id (id ∷ live) ≡ true) × (slot_of x.internal_id ≡ s))
            (sym (off.order s k)) (contains-later _ id live before.0, before.1)
    ]
