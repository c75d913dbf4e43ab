-- ===== src/Pool.antt =====
-- include/oms/OrderPool.h and src/OrderPool.cpp: the fixed pool of orders with a free list and a
-- generation per slot. A vector is a list; the back of the free list is the head of its list. A
-- failed `assert` is `none`: the process stops there.
pub mod FreeList
pub mod Invariant
pub mod Stale
use delta_assignment.Common.{
  ℕ, suc, zero, ◌+◌, ◌-◌, ◌%◌, ◌^◌, Bool, true, false, ◌&&◌, ◌==◌, ltb, List, [], ◌∷◌, Option, none,
  some, get_or, set, replicate, if◌then◌else◌,
}
use delta_assignment.OrderId.{OrderIdRaw, decode_order_id}
use delta_assignment.Order.{Order, fresh_order}

pub record OrderPool : Type 0 where
  pub capacity : ℕ
  pub in_use : ℕ
  pub slots : List Order
  pub generation : List ℕ
  pub allocated : List Bool
  pub free_list : List ℕ

-- The slots from `lo` on, `n` of them: the constructor pushes them in descending order, so that
-- slot 0 is at the back.
abbrev pub slots_from : ℕ → ℕ → List ℕ
slots_from lo zero = []
slots_from lo (suc n) = lo ∷ slots_from (suc lo) n

-- OrderPool::OrderPool
unfoldable pub make_pool : ℕ → OrderPool
make_pool capacity = record {
  capacity = capacity;
  in_use = 0;
  slots = replicate capacity fresh_order;
  generation = replicate capacity 0;
  allocated = replicate capacity false;
  free_list = slots_from 0 capacity;
}

abbrev pub take_slot : OrderPool → List ℕ → Option (ℕ × OrderPool)
take_slot p [] = none
take_slot p (slot ∷ rest) = some (
  slot,
  record p {
    in_use = (p.in_use + 1) % 2 ^ 32;
    slots = set p.slots slot fresh_order;
    allocated = set p.allocated slot true;
    free_list = rest;
  },
)

-- OrderPool::acquire
unfoldable pub acquire : OrderPool → Option (ℕ × OrderPool)
acquire p = take_slot p p.free_list

-- allocated_[slot]; a slot out of range is free.
abbrev pub is_allocated : OrderPool → ℕ → Bool
is_allocated p slot = get_or p.allocated slot false

-- generation_[slot]
abbrev pub generation_of : OrderPool → ℕ → ℕ
generation_of p slot = get_or p.generation slot 0

-- OrderPool::release
unfoldable pub release : OrderPool → ℕ → Option OrderPool
release p slot =
    if ltb slot p.capacity && is_allocated p slot
    then some (record p {
      allocated = set p.allocated slot false;
      generation = set p.generation slot ((generation_of p slot + 1) % 2 ^ 16);
      in_use = (p.in_use + 2 ^ 32 - 1) % 2 ^ 32;
      free_list = slot ∷ p.free_list;
    })
    else none

-- OrderPool::slot_live
abbrev pub slot_live : OrderPool → ℕ → Bool
slot_live p slot = ltb slot p.capacity && is_allocated p slot

-- OrderPool::is_current
unfoldable pub is_current : OrderPool → OrderIdRaw → Bool
is_current p id =
    let d = decode_order_id id in slot_live p d.slot && generation_of p d.slot == d.generation

-- pool_[slot]
abbrev pub order_at : OrderPool → ℕ → Order
order_at p slot = get_or p.slots slot fresh_order

-- A write through `Order& o = pool_[slot]`.
abbrev pub set_order : OrderPool → ℕ → Order → OrderPool
set_order p slot o = record p { slots = set p.slots slot o }
