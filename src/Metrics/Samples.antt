-- ===== src/Metrics/Samples.antt =====
-- What a Distribution reports (include/oms/Metrics.h), by the samples that were added.
use delta_assignment.Common.{
  ℕ, zero, suc, ◌<◌, true, false, List, [], ◌∷◌, ◌++◌, ◌≡◌, refl, sym, ap, subst, ◌∙◌, ◌⊎◌, inl,
  inr, take, drop, is_empty,
}
use delta_assignment.Common.Int.{ℤ, pos, ◌+ℤ◌, int_laws, +ℤ_assoc, zero-+ℤ}
use delta_assignment.Double.{Double}
use delta_assignment.RingBuffer.{RingBuffer}
use delta_assignment.RingBuffer.Window.{window, latest, push_all, window-push_all}
use delta_assignment.RingBuffer.Percentile.{
  IsIn, AllAbove, AllBelow, AllAbove-of, AllBelow-of, percentile-least, percentile-greatest,
}
use delta_assignment.Metrics.{Distribution, make_distribution, add_sample, min_sample, max_sample}

abbrev pub add_all : List ℤ → Distribution → Distribution
add_all [] x = x
add_all (v ∷ vs) x = add_all vs (add_sample v x)

abbrev pub sum_of : List ℤ → ℤ
sum_of [] = pos 0
sum_of (v ∷ vs) = v +ℤ sum_of vs

buf-add_all : (vs : List ℤ) (x : Distribution) → (add_all vs x).buf ≡ push_all vs x.buf
unfolding add_sample
buf-add_all [] x = refl
buf-add_all (v ∷ vs) x = buf-add_all vs (add_sample v x)

sum-add_all : (vs : List ℤ) (x : Distribution) → (add_all vs x).sum ≡ x.sum +ℤ sum_of vs
unfolding add_sample
sum-add_all [] x = omega int_laws
sum-add_all (v ∷ vs) x = sum-add_all vs (add_sample v x) ∙ +ℤ_assoc x.sum v (sum_of vs)

split-IsIn : (n : ℕ) (y : ℤ) (xs : List ℤ) → IsIn y xs → IsIn y (take n xs) ⊎ IsIn y (drop n xs)
split-IsIn zero y xs k = inr k
split-IsIn (suc n) y [] k = elim k [ ]
split-IsIn (suc n) y (x ∷ xs) (inl e) = inl (inl e)
split-IsIn (suc n) y (x ∷ xs) (inr k) = elim (split-IsIn n y xs k) [
  | inl early ↦ inl (inr early)
  | inr late ↦ inr late
]

IsIn-left : (y : ℤ) (xs zs : List ℤ) → IsIn y xs → IsIn y (xs ++ zs)
IsIn-left y [] zs k = elim k [ ]
IsIn-left y (x ∷ xs) zs (inl e) = inl e
IsIn-left y (x ∷ xs) zs (inr k) = inr (IsIn-left y xs zs k)

IsIn-right : (y : ℤ) (xs zs : List ℤ) → IsIn y zs → IsIn y (xs ++ zs)
IsIn-right y [] zs k = k
IsIn-right y (x ∷ xs) zs k = inr (IsIn-right y xs zs k)

IsIn-take : (n : ℕ) (y : ℤ) (xs : List ℤ) → IsIn y (take n xs) → IsIn y xs
IsIn-take zero y xs k = elim k [ ]
IsIn-take (suc n) y [] k = elim k [ ]
IsIn-take (suc n) y (x ∷ xs) (inl e) = inl e
IsIn-take (suc n) y (x ∷ xs) (inr k) = inr (IsIn-take n y xs k)

IsIn-drop : (n : ℕ) (y : ℤ) (xs : List ℤ) → IsIn y (drop n xs) → IsIn y xs
IsIn-drop zero y xs k = k
IsIn-drop (suc n) y [] k = elim k [ ]
IsIn-drop (suc n) y (x ∷ xs) k = inr (IsIn-drop n y xs k)

IsIn-append : (y : ℤ) (xs zs : List ℤ) → IsIn y (xs ++ zs) → IsIn y xs ⊎ IsIn y zs
IsIn-append y [] zs k = inr k
IsIn-append y (x ∷ xs) zs (inl e) = inl (inl e)
IsIn-append y (x ∷ xs) zs (inr k) = elim (IsIn-append y xs zs k) [
  | inl early ↦ inl (inr early)
  | inr late ↦ inr late
]

-- The window and the buffer have the same samples.
buf-window : (r : RingBuffer ℤ) (y : ℤ) → IsIn y r.buf → IsIn y (window r)
buf-window r y k = elim (split-IsIn r.head y r.buf k) [
  | inl early ↦ IsIn-right y (drop r.head r.buf) (take r.head r.buf) early
  | inr late ↦ IsIn-left y (drop r.head r.buf) (take r.head r.buf) late
]

window-buf : (r : RingBuffer ℤ) (y : ℤ) → IsIn y (window r) → IsIn y r.buf
window-buf r y k = elim (IsIn-append y (drop r.head r.buf) (take r.head r.buf) k) [
  | inl late ↦ IsIn-drop r.head y r.buf late
  | inr early ↦ IsIn-take r.head y r.buf early
]

not_empty : (y : ℤ) (xs : List ℤ) → IsIn y xs → is_empty xs ≡ false
not_empty y [] k = elim k [ ]
not_empty y (x ∷ xs) k = refl

window-added :
    (n : ℕ) (vs : List ℤ) → 0 < n → window (add_all vs (make_distribution n)).buf ≡ latest n vs
window-added n vs h = ap window (buf-add_all vs (make_distribution n)) ∙ window-push_all n vs h

module _ {W : Type 0} (d : Double W) where
  -- A distribution reports on the latest samples: its minimum and maximum are the least and the
  -- greatest of the latest samples that its capacity holds, if there is one, and its sum is of
  -- all samples added. The comparisons of doubles that percentile makes with its bounds, `0 <=
  -- 0`, `1 <= 0` and `1 >= 1`, are as they should be.
  pub extremes-add_all :
      (n : ℕ) (v : ℤ) (vs : List ℤ)
      → 0 < n
      → IsIn v (latest n vs)
      → d.le (d.of_int (pos 0)) (d.of_int (pos 0)) ≡ true
      → d.le (d.of_int (pos 1)) (d.of_int (pos 0)) ≡ false
      → d.le (d.of_int (pos 1)) (d.of_int (pos 1)) ≡ true
      → let x = add_all vs (make_distribution n) in
        IsIn (min_sample d x) (latest n vs)
        × AllAbove (min_sample d x) (latest n vs)
        × IsIn (max_sample d x) (latest n vs)
        × AllBelow (max_sample d x) (latest n vs)
        × (x.sum ≡ sum_of vs)
  extremes-add_all n v vs h some_v low high top =
      let x = add_all vs (make_distribution n) in
      let same = window-added n vs h in
      let to_buf : (y : ℤ) → IsIn y (latest n vs) → IsIn y x.buf.buf =
        λ y k. window-buf x.buf y (subst (IsIn y) (sym same) k) in
      let from_buf : (y : ℤ) → IsIn y x.buf.buf → IsIn y (latest n vs) =
        λ y k. subst (IsIn y) same (buf-window x.buf y k) in
      let filled = not_empty v x.buf.buf (to_buf v some_v) in
      let (low_in, below) = percentile-least ⦃d = d⦄ (d.of_int (pos 0)) x.buf filled low in
      let (high_in, above) = percentile-greatest ⦃d = d⦄ (d.of_int (pos 1)) x.buf filled high top in
      (
        from_buf (min_sample d x) low_in,
        AllAbove-of (min_sample d x) (latest n vs) (λ y k. below y (to_buf y k)),
        from_buf (max_sample d x) high_in,
        AllBelow-of (max_sample d x) (latest n vs) (λ y k. above y (to_buf y k)),
        sum-add_all vs (make_distribution n) ∙ zero-+ℤ (sum_of vs),
      )
