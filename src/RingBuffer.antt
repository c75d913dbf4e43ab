-- ===== src/RingBuffer.antt =====
-- include/oms/RingBuffer.h: a ring of fixed capacity that keeps the latest samples. Its statistics are
-- taken over an interface of floating-point numbers.
pub mod Window
pub mod Percentile
use delta_assignment.Common.{
  ℕ, zero, suc, ◌+◌, ◌-◌, ◌%◌, Bool, List, [], ◌∷◌, ◌++◌, length, get_or, set, is_empty, sort_by,
  ltb, leb, if◌then◌else◌,
}
use delta_assignment.Common.Int.{ℤ, pos, ◌+ℤ◌, ◌-ℤ◌, ltb_ℤ}
use delta_assignment.Double.{Double}

pub record RingBuffer {ℓ} (A : Type ℓ) : Type ℓ where
  pub capacity : ℕ
  pub head : ℕ
  pub buf : List A

module _ {ℓ} {A : Type ℓ} where
  -- RingBuffer::RingBuffer
  abbrev pub make_ring : ℕ → RingBuffer A
  make_ring capacity = record { capacity = capacity; head = 0; buf = [] }

  -- RingBuffer::push
  unfoldable pub push : A → RingBuffer A → RingBuffer A
  push v r = record r {
    buf = if ltb (length r.buf) r.capacity then r.buf ++ v ∷ [] else set r.buf r.head v;
    head = (r.head + 1) % r.capacity;
  }

  -- RingBuffer::clear
  abbrev pub clear : RingBuffer A → RingBuffer A
  clear r = record r { buf = []; head = 0 }

  -- The loop of RingBuffer::fraction.
  abbrev pub count_if : (A → Bool) → List A → ℕ
  count_if test [] = 0
  count_if test (v ∷ vs) = (if test v then 1 else 0) + count_if test vs

  -- RingBuffer::fraction
  unfoldable pub fraction : {W : Type 0} ⦃d : Double W⦄ → (A → Bool) → RingBuffer A → W
  fraction ⦃d⦄ test r =
      if is_empty r.buf
      then d.of_int (pos 0)
      else d.div (d.of_int (pos (count_if test r.buf))) (d.of_int (pos (length r.buf)))

-- The interpolation between the samples at `lo` and at the next index, if there is one.
abbrev pub interpolate : {W : Type 0} ⦃d : Double W⦄ → List ℤ → W → ℤ
interpolate ⦃d⦄ s idx =
    let lo = d.to_size idx in
    let hi = if ltb (length s - 1) (lo + 1) then length s - 1 else lo + 1 in
    let frac = d.sub idx (d.of_int (pos lo)) in
    let low = get_or s lo (pos 0) in
    d.to_int (d.add (d.of_int low) (d.mul (d.of_int (get_or s hi (pos 0) -ℤ low)) frac))

-- RingBuffer<int64_t>::percentile
unfoldable pub percentile : {W : Type 0} ⦃d : Double W⦄ → W → RingBuffer ℤ → ℤ
percentile ⦃d⦄ p r =
    let s = sort_by ltb_ℤ r.buf in
    if is_empty s
    then pos 0
    else if d.le p (d.of_int (pos 0))
    then get_or s 0 (pos 0)
    else if d.le (d.of_int (pos 1)) p
    then get_or s (length s - 1) (pos 0)
    else interpolate s (d.mul p (d.of_int (pos (length s - 1))))
