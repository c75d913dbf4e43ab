-- ===== src/Signal/Late.antt =====
-- Messages that come again or late (SignalGate::check of src/Signal.cpp).
use delta_assignment.Common.{
  ℕ, ◌+◌, ◌-◌, ◌%◌, ◌^◌, ◌<◌, ◌≤◌, ◌≡◌, refl, ap, ◌∙◌, Bool, true, false, ltb, leb, if◌then◌else◌,
  inl, inr, Bool-cases, mod-eq_of_lt, add-mod_right, ltb→lt, arith,
}
use delta_assignment.Common.Int.{ℤ, ◌-ℤ◌, ltb_ℤ}
use delta_assignment.Signal.{SignalMessage}
use delta_assignment.Signal.Gate.{
  SignalVerdict, SignalGateConfig, SignalGate, Producer, check, settle, advance, seq_verdict,
  seq_delta, is_absurd, producer,
}
use delta_assignment.Signal.GateLaws.{
  applies, seq_delta-exact, check-applied, check-passed, producer-advance,
}

-- A sequence number that is `d` behind the expected one.
seq_delta-late :
    (m n e d : ℕ) → n < m → m ≤ 2 ^ 63 → 0 < d → d < m → e ≡ (n + d) % m → seq_delta m n e ≡ m - d
seq_delta-late m n e d h k some_d below is = elim (Bool-cases (ltb (n + d) m)) [
  | inl c ↦
      let at : e ≡ n + d = is ∙ mod-eq_of_lt (ltb→lt (n + d) m c) in
      seq_delta-exact m n e (omega arith) (omega arith) (omega arith)
      ∙ ap (λ (x : ℕ). x % m) (omega arith)
      ∙ mod-eq_of_lt (omega arith)
  | inr c ↦
      let over : m ≤ n + d = ground arith in
      let split : n + d ≡ (n + d - m) + m = omega arith in
      let at : e ≡ n + d - m =
        is
        ∙ ap (λ (x : ℕ). x % m) split
        ∙ add-mod_right (n + d - m) m
        ∙ mod-eq_of_lt (omega arith) in
      let twice : n + m - e ≡ (m - d) + m = omega arith in
      seq_delta-exact m n e (omega arith) (omega arith) (omega arith)
      ∙ ap (λ (x : ℕ). x % m) twice
      ∙ add-mod_right (m - d) m
      ∙ mod-eq_of_lt (omega arith)
]

seq_verdict-late :
    (cfg : SignalGateConfig) (p : Producer) (seq d : ℕ)
    → p.seen ≡ true
    → cfg.miss_threshold < cfg.seq_modulo
    → cfg.seq_modulo ≤ 2 ^ 63
    → 0 < d
    → d < cfg.seq_modulo
    → seq_delta cfg.seq_modulo seq p.expected_seq ≡ cfg.seq_modulo - d
    → seq_verdict cfg p seq ≡ (
        if leb d cfg.miss_threshold
        then SignalVerdict.duplicate_dropped
        else SignalVerdict.gap_accepted_logged)
seq_verdict-late cfg p seq d seen miss modulo some_d below e = rw (seen, e) (ground arith)

settle-late :
    (b : Bool) (g : SignalGate) (msg : SignalMessage) (now : ℤ)
    → settle g msg now
        (if b then SignalVerdict.duplicate_dropped else SignalVerdict.gap_accepted_logged)
      ≡ (if b
          then (SignalVerdict.duplicate_dropped, g)
          else (SignalVerdict.gap_accepted_logged, advance g msg now))
settle-late true g msg now = refl
settle-late false g msg now = refl

-- After a message that was applied, a message of the same producer whose sequence number is `d`
-- behind the expected one (1 for the same message again), fresh and without absurd target, is
-- dropped as a duplicate exactly where `d` is within the miss threshold, and the gate stays as it
-- was; farther behind it is applied as after a gap. The sequence numbers run below a modulus of at
-- most 2^63, above the miss threshold.
pub check-late :
    (g : SignalGate) (msg late : SignalMessage) (now later : ℤ) (d : ℕ)
    → g.cfg.miss_threshold < g.cfg.seq_modulo
    → g.cfg.seq_modulo ≤ 2 ^ 63
    → msg.sequence < g.cfg.seq_modulo
    → late.sequence < g.cfg.seq_modulo
    → 0 < d
    → d < g.cfg.seq_modulo
    → (msg.sequence + 1) % g.cfg.seq_modulo ≡ (late.sequence + d) % g.cfg.seq_modulo
    → applies (check g msg now).0 ≡ true
    → late.strategy_id ≡ msg.strategy_id
    → is_absurd g.cfg late.targets ≡ false
    → ltb_ℤ g.cfg.max_signal_age (later -ℤ late.generated_at) ≡ false
    → let g' = (check g msg now).1 in
      check g' late later ≡ (
        if leb d g.cfg.miss_threshold
        then (SignalVerdict.duplicate_dropped, g')
        else (SignalVerdict.gap_accepted_logged, advance g' late later))
check-late g msg late now later d miss modulo seq seq' some_d below behind applied same sane'
      fresh =
    let (on, sane, moved) = check-applied g msg now applied in
    let after = advance g msg now in
    let p = ap (producer after) same ∙ producer-advance g msg now in
    let whole : (msg.sequence + 1) % 2 ^ 64 % g.cfg.seq_modulo
        ≡ (late.sequence + d) % g.cfg.seq_modulo =
      ap (λ (n : ℕ). n % g.cfg.seq_modulo) (omega arith) ∙ behind in
    let verdict =
      seq_verdict-late g.cfg (producer after late.strategy_id) late.sequence d
        (ap (λ (q : Producer). q.seen) p) miss modulo some_d below
        (ap (λ (q : Producer). seq_delta g.cfg.seq_modulo late.sequence q.expected_seq) p
          ∙ seq_delta-late g.cfg.seq_modulo late.sequence _ d seq' modulo some_d below whole) in
    rw moved (
      check-passed after late later on sane' fresh
      ∙ ap (settle after late later) verdict
      ∙ settle-late (leb d g.cfg.miss_threshold) after late later)
