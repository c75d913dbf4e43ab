-- ===== src/RingBuffer/Window.antt =====
-- A ring holds the latest samples in their order (include/oms/RingBuffer.h).
use delta_assignment.Common.{
  ℕ, zero, suc, ◌+◌, ◌-◌, ◌%◌, ◌<◌, ◌≤◌, ◌≡◌, refl, sym, ap, ◌∙◌, false, List, [], ◌∷◌, ◌++◌,
  length, set, take, drop, ltb, ltb→lt, lt→ltb, inl, inr, ◌⊎◌, Bool-cases, append-nil, append_assoc,
  length-append, length-set, mod-eq_of_lt, mod-lt, mod_self, arith,
}
use delta_assignment.RingBuffer.{RingBuffer, make_ring, push}

-- The next head is one further, or 0 at the end.
next_head-cases :
    (h size : ℕ)
    → h < size
    → ((suc h < size) × ((h + 1) % size ≡ suc h)) ⊎ ((suc h ≡ size) × ((h + 1) % size ≡ 0))
next_head-cases h size k = elim (Bool-cases (ltb (suc h) size)) [
  | inl e ↦
      let l = ltb→lt (suc h) size e in
      inl (l, ap (λ (n : ℕ). n % size) (omega arith) ∙ mod-eq_of_lt l)
  | inr e ↦
      let l : suc h ≡ size = ground arith in
      inr (l, ap (λ (n : ℕ). n % size) (omega (arith, l)) ∙ mod_self size)
]

not_full : {a b : ℕ} → ltb a b ≡ false → a < b → ⊥
not_full e h = ground arith

module _ {ℓ} {A : Type ℓ} where
  drop-past : (xs : List A) (n : ℕ) → length xs ≤ n → drop n xs ≡ []
  drop-past [] zero h = refl
  drop-past [] (suc n) h = refl
  drop-past (x ∷ xs) zero h = absurd (omega arith)
  drop-past (x ∷ xs) (suc n) h = drop-past xs n (omega arith)

  take-past : (xs : List A) (n : ℕ) → length xs ≤ n → take n xs ≡ xs
  take-past [] zero h = refl
  take-past [] (suc n) h = refl
  take-past (x ∷ xs) zero h = absurd (omega arith)
  take-past (x ∷ xs) (suc n) h = ap (◌∷◌ x) (take-past xs n (omega arith))

  drop-set : (xs : List A) (h : ℕ) (v : A) → drop (suc h) (set xs h v) ≡ drop (suc h) xs
  drop-set [] h v = refl
  drop-set (x ∷ xs) zero v = refl
  drop-set (x ∷ xs) (suc h) v = drop-set xs h v

  take-set :
      (xs : List A) (h : ℕ) (v : A)
      → h < length xs
      → take (suc h) (set xs h v) ≡ take h xs ++ v ∷ []
  take-set [] h v k = elim k [ ]
  take-set (x ∷ xs) zero v k = refl
  take-set (x ∷ xs) (suc h) v k = ap (◌∷◌ x) (take-set xs h v (omega arith))

  drop-drop_one :
      (xs ys : List A) (h : ℕ) → h < length xs → drop 1 (drop h xs ++ ys) ≡ drop (suc h) xs ++ ys
  drop-drop_one [] ys h k = elim k [ ]
  drop-drop_one (x ∷ xs) ys zero k = refl
  drop-drop_one (x ∷ xs) ys (suc h) k = drop-drop_one xs ys h (omega arith)

  drop-append : (xs ys : List A) (n : ℕ) → n ≤ length xs → drop n (xs ++ ys) ≡ drop n xs ++ ys
  drop-append xs ys zero h = refl
  drop-append [] ys (suc n) h = absurd (omega arith)
  drop-append (x ∷ xs) ys (suc n) h = drop-append xs ys n (omega arith)

  length-drop : (xs : List A) (n : ℕ) → length (drop n xs) ≡ length xs - n
  length-drop xs zero = omega arith
  length-drop [] (suc n) = omega arith
  length-drop (x ∷ xs) (suc n) = omega (arith, length-drop xs n)

  -- The specification: the last `n` elements.
  abbrev pub latest : ℕ → List A → List A
  latest n xs = drop (length xs - n) xs

  -- The samples of a ring, oldest first.
  abbrev pub window : RingBuffer A → List A
  window r = drop r.head r.buf ++ take r.head r.buf

  abbrev pub push_all : List A → RingBuffer A → RingBuffer A
  push_all [] r = r
  push_all (v ∷ vs) r = push_all vs (push v r)

  pub record IsRing (r : RingBuffer A) : Type ℓ where
    pub positive : 0 < r.capacity
    pub bounded : length r.buf ≤ r.capacity
    pub head_in : r.head < r.capacity
    pub filling : length r.buf < r.capacity → r.head ≡ length r.buf

  rotation-past : (xs : List A) (n : ℕ) → length xs ≤ n → drop n xs ++ take n xs ≡ xs
  rotation-past xs n h = rw (drop-past xs n h) (take-past xs n h)

  length-push_back : (xs : List A) (v : A) → length (xs ++ v ∷ []) ≡ length xs + 1
  length-push_back xs v = omega (arith, length-append xs (v ∷ []))

  -- A push while there is room.
  window-push_filling :
      (v : A) (r : RingBuffer A)
      → IsRing r
      → length r.buf < r.capacity
      → window (push v r) ≡ window r ++ v ∷ []
  unfolding push
  window-push_filling v r i h =
      let all = rotation-past r.buf r.head (omega (arith, i.filling h)) in
      rw (all, lt→ltb (length r.buf) r.capacity h)
        (elim (next_head-cases r.head r.capacity i.head_in) [
          | inl (l, e) ↦ rw e (
              rotation-past (r.buf ++ v ∷ []) (suc r.head)
                (omega (arith, length-push_back r.buf v, i.filling h)))
          | inr (l, e) ↦ rw e (append-nil (r.buf ++ v ∷ []))
        ])

  -- A push into a full ring replaces the oldest sample.
  window-push_full :
      (v : A) (r : RingBuffer A)
      → IsRing r
      → length r.buf ≡ r.capacity
      → window (push v r) ≡ drop 1 (window r ++ v ∷ [])
  unfolding push
  window-push_full v r i h =
      let inside : r.head < length r.buf = omega (arith, i.head_in) in
      let full : ltb (length r.buf) r.capacity ≡ false = ground arith in
      rw
        (
          full,
          append_assoc (drop r.head r.buf) (take r.head r.buf) (v ∷ []),
          drop-drop_one r.buf (take r.head r.buf ++ v ∷ []) r.head inside,
        )
        (elim (next_head-cases r.head r.capacity i.head_in) [
          | inl (l, e) ↦ rw (e, drop-set r.buf r.head v, take-set r.buf r.head v inside) refl
          | inr (l, e) ↦
              rw (e, drop-past r.buf (suc r.head) (omega arith))
                (append-nil (set r.buf r.head v)
                  ∙ sym (
                      take-past (set r.buf r.head v) (suc r.head)
                        (omega (arith, length-set r.buf r.head v)))
                  ∙ take-set r.buf r.head v inside)
        ])

  push-IsRing : (v : A) (r : RingBuffer A) → IsRing r → IsRing (push v r)
  unfolding push
  push-IsRing v r i = elim (Bool-cases (ltb (length r.buf) r.capacity)) [
    | inl e ↦ rw e (record {
      positive = i.positive;
      bounded = omega (arith, length-push_back r.buf v, ltb→lt (length r.buf) r.capacity e);
      head_in = mod-lt (r.head + 1) i.positive;
      filling = λ (h : length (r.buf ++ v ∷ []) < r.capacity).
          mod-eq_of_lt (
            omega
              (arith, h, length-push_back r.buf v, i.filling (ltb→lt (length r.buf) r.capacity e)))
          ∙ omega (arith, length-push_back r.buf v, i.filling (ltb→lt (length r.buf) r.capacity e));
    })
    | inr e ↦ rw e (record {
      positive = i.positive;
      bounded = omega (arith, length-set r.buf r.head v, i.bounded);
      head_in = mod-lt (r.head + 1) i.positive;
      filling = λ (h : length (set r.buf r.head v) < r.capacity).
          absurd (not_full e (omega (arith, h, length-set r.buf r.head v)));
    })
  ]

  length-take_add : (xs : List A) (n : ℕ) → length (take n xs) + (length xs - n) ≡ length xs
  length-take_add xs zero = omega arith
  length-take_add [] (suc n) = omega arith
  length-take_add (x ∷ xs) (suc n) = omega (arith, length-take_add xs n)

  length-window : (r : RingBuffer A) → length (window r) ≡ length r.buf
  length-window r = omega (
    arith,
    length-append (drop r.head r.buf) (take r.head r.buf),
    length-drop r.buf r.head,
    length-take_add r.buf r.head,
  )

  -- The latest of a longer history: of a short one everything, of a long one without the oldest.
  latest-short : (n : ℕ) (xs : List A) → length xs ≤ n → latest n xs ≡ xs
  latest-short n xs h = let kept : length xs - n ≡ 0 = omega arith in ap (λ (k : ℕ). drop k xs) kept

  latest-long :
      (n : ℕ) (xs : List A) (v : A)
      → 0 < n
      → n ≤ length xs
      → latest n (xs ++ v ∷ []) ≡ drop 1 (latest n xs ++ v ∷ [])
  latest-long n xs v p h =
      let more : length (xs ++ v ∷ []) - n ≡ suc (length xs - n) =
        omega (arith, length-push_back xs v) in
      ap (λ (k : ℕ). drop k (xs ++ v ∷ [])) more
      ∙ drop-append xs (v ∷ []) (suc (length xs - n)) (omega arith)
      ∙ sym (drop-drop_one xs (v ∷ []) (length xs - n) (omega arith))

  -- One push, against the whole history of samples.
  window-push :
      (v : A) (r : RingBuffer A) (past : List A)
      → IsRing r
      → window r ≡ latest r.capacity past
      → window (push v r) ≡ latest r.capacity (past ++ v ∷ [])
  window-push v r past i h =
      let size =
        sym (length-window r) ∙ ap length h ∙ length-drop past (length past - r.capacity) in
      elim (Bool-cases (ltb (length past) r.capacity)) [
        | inl e ↦
            let short = ltb→lt (length past) r.capacity e in
            window-push_filling v r i (omega (arith, size))
            ∙ ap (λ (xs : List A). xs ++ v ∷ []) (h ∙ latest-short r.capacity past (omega arith))
            ∙ sym
                (latest-short r.capacity (past ++ v ∷ []) (omega (arith, length-push_back past v)))
        | inr e ↦
            let long : r.capacity ≤ length past = ground arith in
            window-push_full v r i (omega (arith, size))
            ∙ ap (λ (xs : List A). drop 1 (xs ++ v ∷ [])) h
            ∙ sym (latest-long r.capacity past v i.positive long)
      ]

  window-push_all_after :
      (vs : List A) (r : RingBuffer A) (past : List A)
      → IsRing r
      → window r ≡ latest r.capacity past
      → window (push_all vs r) ≡ latest r.capacity (past ++ vs)
  unfolding push
  window-push_all_after [] r past i h = h ∙ ap (latest r.capacity) (sym (append-nil past))
  window-push_all_after (v ∷ vs) r past i h =
      window-push_all_after vs (push v r) (past ++ v ∷ []) (push-IsRing v r i)
        (window-push v r past i h)
      ∙ ap (latest r.capacity) (append_assoc past (v ∷ []) vs)

  make_ring-IsRing : (n : ℕ) → 0 < n → IsRing (make_ring n)
  make_ring-IsRing n h = record {
    positive = h;
    bounded = omega arith;
    head_in = h;
    filling = λ _. refl;
  }

  -- A ring of positive capacity, after any pushes into the empty ring, holds exactly the latest
  -- samples, as many as fit, oldest first.
  pub window-push_all :
      (n : ℕ) (vs : List A) → 0 < n → window (push_all vs (make_ring n)) ≡ latest n vs
  window-push_all n vs h =
      window-push_all_after vs (make_ring n) [] (make_ring-IsRing n h)
        (sym (drop-past [] (0 - n) (omega arith)))
