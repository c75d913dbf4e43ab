-- ===== src/Signal/Codec.antt =====
-- The codec of src/Signal.cpp and its inverse.
use delta_assignment.Common.{
  ℕ, zero, suc, ◌*◌, ◌/◌, ◌%◌, ◌^◌, ◌<◌, ◌≡◌, refl, ap, List, [], ◌∷◌, ◌++◌, some, length,
  append_assoc, append-nil, mod-eq_of_lt, subst, arith,
}
use delta_assignment.Common.Int.{ℤ, pos, negsuc}
use delta_assignment.Signal.{
  TargetPosition, SignalMessage, put, get, to_word, of_word, put_targets, get_targets,
  serialize_signal, deserialize_signal,
}

-- 256 to the number of bytes.
abbrev span : ℕ → ℕ
span zero = 1
span (suc w) = 256 * span w

get-put : (w v : ℕ) (rest : List ℕ) → v < span w → get w (put w v ++ rest) ≡ some (v, rest)
unfolding put get
get-put zero v rest h = ap (λ (n : ℕ). some (n, rest)) (omega arith)
get-put (suc w) v rest h =
    rw (get-put w (v / 256) rest (omega arith)) (ap (λ (n : ℕ). some (n, rest)) (omega arith))

-- An `int64_t`.
abbrev Int64 : ℤ → Type 0
Int64 (pos n) = n < 2 ^ 63
Int64 (negsuc n) = n < 2 ^ 63

of_word-to_word : (z : ℤ) → Int64 z → of_word (to_word z) ≡ z
of_word-to_word (pos n) h = ground arith
of_word-to_word (negsuc n) h = ground arith

to_word-fits : (z : ℤ) → to_word z < 2 ^ 64
to_word-fits (pos n) = omega arith
to_word-fits (negsuc n) = omega arith

-- A target whose fields fit their widths.
abbrev TargetFits : TargetPosition → Type 0
TargetFits t = (t.instrument < 2 ^ 16) × Int64 t.signed_target

abbrev AllFit : List TargetPosition → Type 0
AllFit [] = Unit {0}
AllFit (t ∷ ts) = TargetFits t × AllFit ts

get_targets-put_targets :
    (ts : List TargetPosition) (rest : List ℕ)
    → AllFit ts
    → get_targets (length ts) (put_targets ts ++ rest) ≡ some (ts, rest)
unfolding get_targets
get_targets-put_targets [] rest h = refl
get_targets-put_targets (t ∷ ts) rest ((i, q), h) =
    let word = put 8 (to_word t.signed_target) in
    rw
      (
        append_assoc (put 2 t.instrument ++ word) (put_targets ts) rest,
        append_assoc (put 2 t.instrument) word (put_targets ts ++ rest),
        get-put 2 t.instrument (word ++ (put_targets ts ++ rest)) i,
        get-put 8 (to_word t.signed_target) (put_targets ts ++ rest) (to_word-fits t.signed_target),
        get_targets-put_targets ts rest h,
        of_word-to_word t.signed_target q,
      )
      refl

get_targets-put_targets_end :
    (ts : List TargetPosition)
    → AllFit ts
    → get_targets (length ts) (put_targets ts) ≡ some (ts, [])
get_targets-put_targets_end ts h =
    subst (λ (b : List ℕ). get_targets (length ts) b ≡ some (ts, [])) (append-nil (put_targets ts))
      (get_targets-put_targets ts [] h)

-- A message whose fields fit their widths.
pub record Fits (m : SignalMessage) : Type 0 where
  pub schema_version : m.schema_version < 2 ^ 32
  pub sequence : m.sequence < 2 ^ 64
  pub generated_at : Int64 m.generated_at
  pub strategy_id : m.strategy_id < 2 ^ 16
  pub count : length m.targets < 2 ^ 32
  pub targets : AllFit m.targets

-- A message whose fields fit their widths is read back from its own bytes.
pub deserialize-serialize :
    (m : SignalMessage) → Fits m → deserialize_signal (serialize_signal m) ≡ some m
unfolding deserialize_signal
deserialize-serialize m f =
    let version = put 4 m.schema_version in
    let sequence = put 8 m.sequence in
    let time = put 8 (to_word m.generated_at) in
    let strategy = put 2 m.strategy_id in
    let count = put 4 (length m.targets % 2 ^ 32) in
    let tail = put_targets m.targets in
    rw
      (
        append_assoc (version ++ sequence ++ time ++ strategy) count tail,
        append_assoc (version ++ sequence ++ time) strategy (count ++ tail),
        append_assoc (version ++ sequence) time (strategy ++ (count ++ tail)),
        append_assoc version sequence (time ++ (strategy ++ (count ++ tail))),
        get-put 4 m.schema_version (sequence ++ (time ++ (strategy ++ (count ++ tail))))
            f.schema_version,
        get-put 8 m.sequence (time ++ (strategy ++ (count ++ tail))) f.sequence,
        get-put 8 (to_word m.generated_at) (strategy ++ (count ++ tail))
            (to_word-fits m.generated_at),
        get-put 2 m.strategy_id (count ++ tail) f.strategy_id,
        mod-eq_of_lt f.count,
        get-put 4 (length m.targets) tail f.count,
        get_targets-put_targets_end m.targets f.targets,
        of_word-to_word m.generated_at f.generated_at,
      )
      refl
