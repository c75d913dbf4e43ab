-- ===== src/Signal.antt =====
-- include/oms/Signal.h and src/Signal.cpp: the signal message, its binary codec and the queue, with
-- `put` and `get` of include/oms/Detail.h. A byte is a number below 256; a word lies in memory least
-- byte first. The offset into the buffer is the rest of the buffer, and the message written to `out`
-- is returned; a codec that returns false is `none`.
pub mod Codec
pub mod Gate
pub mod GateLaws
pub mod Late
use delta_assignment.Common.{
  ℕ, zero, suc, ◌+◌, ◌-◌, ◌*◌, ◌/◌, ◌%◌, ◌^◌, List, [], ◌∷◌, ◌++◌, Option, none, some, length, ltb,
  ◌>>=◌, if◌then◌else◌,
}
use delta_assignment.Common.Int.{ℤ, pos, negsuc}

pub record TargetPosition : Type 0 where
  pub instrument : ℕ
  pub signed_target : ℤ

pub record SignalMessage : Type 0 where
  pub schema_version : ℕ
  pub sequence : ℕ
  pub generated_at : ℤ
  pub strategy_id : ℕ
  pub targets : List TargetPosition

-- detail::put of a word of `w` bytes.
unfoldable pub put : ℕ → ℕ → List ℕ
put zero v = []
put (suc w) v = v % 256 ∷ put w (v / 256)

-- A byte in front of the word read after it.
abbrev pub push_byte : ℕ → Option (ℕ × List ℕ) → Option (ℕ × List ℕ)
push_byte x none = none
push_byte x (some (v, rest)) = some (x + 256 * v, rest)

-- detail::get of a word of `w` bytes: the word and the rest of the buffer.
unfoldable pub get : ℕ → List ℕ → Option (ℕ × List ℕ)
get zero b = some (0, b)
get (suc w) [] = none
get (suc w) (x ∷ b) = push_byte x (get w b)

-- The two's complement of an `int64_t`, and back.
abbrev pub to_word : ℤ → ℕ
to_word (pos n) = n % 2 ^ 64
to_word (negsuc n) = 2 ^ 64 - 1 - n % 2 ^ 64

abbrev pub of_word : ℕ → ℤ
of_word n = if ltb n (2 ^ 63) then pos n else negsuc (2 ^ 64 - 1 - n)

-- The loop of serialize_signal.
abbrev pub put_targets : List TargetPosition → List ℕ
put_targets [] = []
put_targets (t ∷ ts) = put 2 t.instrument ++ put 8 (to_word t.signed_target) ++ put_targets ts

-- serialize_signal
abbrev pub serialize_signal : SignalMessage → List ℕ
serialize_signal m =
    put 4 m.schema_version
    ++ put 8 m.sequence
    ++ put 8 (to_word m.generated_at)
    ++ put 2 m.strategy_id
    ++ put 4 (length m.targets % 2 ^ 32)
    ++ put_targets m.targets

-- The loop of deserialize_signal, for `n` targets.
unfoldable pub get_targets : ℕ → List ℕ → Option (List TargetPosition × List ℕ)
get_targets zero b = some ([], b)
get_targets (suc n) b = do
  (instrument, b) ← get 2 b
  (signed_target, b) ← get 8 b
  (ts, rest) ← get_targets n b
  some (record { instrument = instrument; signed_target = of_word signed_target } ∷ ts, rest)

-- `return off == b.size()`
abbrev pub at_end : SignalMessage → List ℕ → Option SignalMessage
at_end m [] = some m
at_end m (x ∷ b) = none

-- deserialize_signal
unfoldable pub deserialize_signal : List ℕ → Option SignalMessage
deserialize_signal b = do
  (schema_version, b) ← get 4 b
  (sequence, b) ← get 8 b
  (generated_at, b) ← get 8 b
  (strategy_id, b) ← get 2 b
  (n, b) ← get 4 b
  (targets, b) ← get_targets n b
  at_end
      (record {
        schema_version = schema_version;
        sequence = sequence;
        generated_at = of_word generated_at;
        strategy_id = strategy_id;
        targets = targets;
      })
      b

-- InProcessSignalQueue::push and try_pop: the queue, front first.
abbrev pub push : SignalMessage → List SignalMessage → List SignalMessage
push m q = q ++ m ∷ []

abbrev pub try_pop : List SignalMessage → Option (SignalMessage × List SignalMessage)
try_pop [] = none
try_pop (m ∷ q) = some (m, q)
