-- ===== src/Signal/GateLaws.antt =====
-- What SignalGate::check of src/Signal.cpp does over several messages.
use delta_assignment.Common.{
  ℕ, ◌+◌, ◌-◌, ◌%◌, ◌^◌, ◌<◌, ◌≤◌, ◌≡◌, refl, sym, ap, ◌∙◌, Bool, true, false, ltb, if◌then◌else◌,
  ◌&&◌, inl, inr, Bool-cases, mod-eq_of_lt, arith, ◌⊎◌, mod_self, ltb→lt,
}
use delta_assignment.Common.Int.{ℤ, ◌-ℤ◌, ◌*ℤ◌, ltb_ℤ, leb_ℤ}
use delta_assignment.Common.Dict.{find_or-insert_self}
use delta_assignment.Signal.{SignalMessage}
use delta_assignment.Signal.Gate.{
  SignalVerdict, SignalGateConfig, SignalGate, Producer, unseen, check, settle, advance,
  seq_verdict, seq_delta, is_absurd, producer, heartbeat_alive,
}

-- The verdicts on which the message is applied.
abbrev pub applies : SignalVerdict → Bool
applies SignalVerdict.accept = true
applies SignalVerdict.gap_accepted_logged = true
applies _ = false

settle-applies :
    (g : SignalGate) (msg : SignalMessage) (now : ℤ) (v : SignalVerdict)
    → applies v ≡ true
    → settle g msg now v ≡ (v, advance g msg now)
settle-applies g msg now SignalVerdict.accept h = refl
settle-applies g msg now SignalVerdict.gap_accepted_logged h = refl
settle-applies g msg now SignalVerdict.duplicate_dropped h = cc
settle-applies g msg now SignalVerdict.reject_dnt h = cc
settle-applies g msg now SignalVerdict.reject_age h = cc
settle-applies g msg now SignalVerdict.reject_absurd h = cc

pub settle-verdict :
    (g : SignalGate) (msg : SignalMessage) (now : ℤ) (v : SignalVerdict)
    → (settle g msg now v).0 ≡ v
settle-verdict g msg now SignalVerdict.accept = refl
settle-verdict g msg now SignalVerdict.gap_accepted_logged = refl
settle-verdict g msg now SignalVerdict.duplicate_dropped = refl
settle-verdict g msg now SignalVerdict.reject_dnt = refl
settle-verdict g msg now SignalVerdict.reject_age = refl
settle-verdict g msg now SignalVerdict.reject_absurd = refl

-- SignalGate::check over what its tests answer.
abbrev by_tests :
    (trading absurd old : Bool)
    → SignalGate
    → SignalMessage
    → ℤ
    → SignalVerdict
    → SignalVerdict × SignalGate
by_tests trading absurd_target old g msg now v =
    if trading
    then (if absurd_target
        then (SignalVerdict.reject_absurd, g)
        else if old
        then (SignalVerdict.reject_age, g)
        else settle g msg now v)
    else (SignalVerdict.reject_dnt, g)

by_tests-applied :
    (trading absurd_target old : Bool) (g : SignalGate) (msg : SignalMessage) (now : ℤ)
    (v : SignalVerdict)
    → let r = by_tests trading absurd_target old g msg now v in
      applies r.0 ≡ true → (trading ≡ true) × (absurd_target ≡ false) × (r.1 ≡ advance g msg now)
by_tests-applied false absurd_target old g msg now v h = cc
by_tests-applied true true old g msg now v h = cc
by_tests-applied true false true g msg now v h = cc
by_tests-applied true false false g msg now v h = (
  refl,
  refl,
  ap (λ (r : SignalVerdict × SignalGate). r.1)
      (settle-applies g msg now v (ap applies (sym (settle-verdict g msg now v)) ∙ h)),
)

by_tests-refused :
    (trading absurd_target old : Bool) (g : SignalGate) (msg : SignalMessage) (now : ℤ)
    (v : SignalVerdict)
    → let r = by_tests trading absurd_target old g msg now v in
      applies r.0 ≡ false → applies v ≡ true ⊎ (v ≡ SignalVerdict.duplicate_dropped) → r.1 ≡ g
by_tests-refused false absurd_target old g msg now v h c = refl
by_tests-refused true true old g msg now v h c = refl
by_tests-refused true false true g msg now v h c = refl
by_tests-refused true false false g msg now v h (inl a) =
    let same = ap applies (settle-verdict g msg now v) in cc
by_tests-refused true false false g msg now v h (inr d) = rw d refl

-- The verdict on a sequence number is to apply the message or to drop it as a duplicate.
seq_verdict-cases :
    (cfg : SignalGateConfig) (p : Producer) (seq : ℕ)
    → (applies (seq_verdict cfg p seq) ≡ true)
      ⊎ (seq_verdict cfg p seq ≡ SignalVerdict.duplicate_dropped)
seq_verdict-cases cfg p seq = ground arith

-- An applied message came to an open gate, had no absurd target, and moved its producer on.
pub check-applied :
    (g : SignalGate) (msg : SignalMessage) (now : ℤ)
    → applies (check g msg now).0 ≡ true
    → (g.trading_enabled ≡ true)
      × (is_absurd g.cfg msg.targets ≡ false)
      × ((check g msg now).1 ≡ advance g msg now)
unfolding check
check-applied g msg now h =
    by_tests-applied g.trading_enabled (is_absurd g.cfg msg.targets)
      (ltb_ℤ g.cfg.max_signal_age (now -ℤ msg.generated_at)) g msg now
      (seq_verdict g.cfg (producer g msg.strategy_id) msg.sequence) h

-- A message that is not applied leaves the gate as it was.
pub check-refused :
    (g : SignalGate) (msg : SignalMessage) (now : ℤ)
    → applies (check g msg now).0 ≡ false
    → (check g msg now).1 ≡ g
unfolding check
check-refused g msg now h =
    by_tests-refused g.trading_enabled (is_absurd g.cfg msg.targets)
      (ltb_ℤ g.cfg.max_signal_age (now -ℤ msg.generated_at)) g msg now
      (seq_verdict g.cfg (producer g msg.strategy_id) msg.sequence) h
      (seq_verdict-cases g.cfg (producer g msg.strategy_id) msg.sequence)

-- The distance is exact where nothing wraps.
pub seq_delta-exact :
    (m s e : ℕ) → e ≤ s + m → s + m < 2 ^ 64 → e < 2 ^ 64 → seq_delta m s e ≡ (s + m - e) % m
seq_delta-exact m s e h k l = ap (λ (n : ℕ). n % m) (omega arith)

next_seq-cases :
    (m s : ℕ)
    → s < m
    → m ≤ 2 ^ 63
    → ((s + 1 < m) × ((s + 1) % 2 ^ 64 % m ≡ s + 1)) ⊎ ((s + 1 ≡ m) × ((s + 1) % 2 ^ 64 % m ≡ 0))
next_seq-cases m s h k = elim (Bool-cases (ltb (s + 1) m)) [
  | inl e ↦
      inl (
        ltb→lt (s + 1) m e,
        ap (λ (n : ℕ). n % m) (omega arith) ∙ mod-eq_of_lt (ltb→lt (s + 1) m e),
      )
  | inr e ↦
      let last : s + 1 ≡ m = ground arith in
      inr (last, ap (λ (n : ℕ). n % m) (omega arith) ∙ mod_self m)
]

-- The next sequence number is exactly in order.
seq_delta-next : (m e : ℕ) → e < m → m ≤ 2 ^ 63 → seq_delta m e e ≡ 0
seq_delta-next m e h k =
    seq_delta-exact m e e (omega arith) (omega arith) (omega arith)
    ∙ ap (λ (n : ℕ). n % m) (omega arith)
    ∙ mod_self m

seq_delta-is_next :
    (m s n : ℕ) → s < m → m ≤ 2 ^ 63 → n ≡ (s + 1) % m → seq_delta m n ((s + 1) % 2 ^ 64 % m) ≡ 0
seq_delta-is_next m s n h k e = elim (next_seq-cases m s h k) [
  | inl (l, f) ↦ rw (f, e, mod-eq_of_lt l) (seq_delta-next m (s + 1) l k)
  | inr (l, f) ↦ rw (f, e, l, mod_self m) (seq_delta-next m 0 (omega arith) k)
]

-- What a gate finds of a producer whose message it has just applied.
pub producer-advance :
    (g : SignalGate) (msg : SignalMessage) (now : ℤ)
    → producer (advance g msg now) msg.strategy_id ≡ record {
      expected_seq = (msg.sequence + 1) % 2 ^ 64 % g.cfg.seq_modulo;
      seen = true;
      last_accept = now;
    }
producer-advance g msg now = find_or-insert_self unseen msg.strategy_id _ g.producers

seq_verdict-in_order :
    (cfg : SignalGateConfig) (p : Producer) (seq : ℕ)
    → seq_delta cfg.seq_modulo seq p.expected_seq ≡ 0
    → seq_verdict cfg p seq ≡ SignalVerdict.accept
seq_verdict-in_order cfg p seq d = rw d (ground arith)

-- A message that passes the first tests is judged by its sequence number.
pub check-passed :
    (g : SignalGate) (msg : SignalMessage) (now : ℤ)
    → g.trading_enabled ≡ true
    → is_absurd g.cfg msg.targets ≡ false
    → ltb_ℤ g.cfg.max_signal_age (now -ℤ msg.generated_at) ≡ false
    → check g msg now
      ≡ settle g msg now (seq_verdict g.cfg (producer g msg.strategy_id) msg.sequence)
unfolding check
check-passed g msg now on sane fresh = rw (on, sane, fresh) refl

-- After a message that was applied, the producer's next sequence number is accepted as exactly in
-- order, across the wrap, if the message that carries it has no absurd target and is fresh. The
-- sequence numbers run below a modulus of at most 2^63.
pub check-next :
    (g : SignalGate) (msg next : SignalMessage) (now later : ℤ)
    → g.cfg.seq_modulo ≤ 2 ^ 63
    → msg.sequence < g.cfg.seq_modulo
    → applies (check g msg now).0 ≡ true
    → next.strategy_id ≡ msg.strategy_id
    → next.sequence ≡ (msg.sequence + 1) % g.cfg.seq_modulo
    → is_absurd g.cfg next.targets ≡ false
    → ltb_ℤ g.cfg.max_signal_age (later -ℤ next.generated_at) ≡ false
    → (check (check g msg now).1 next later).0 ≡ SignalVerdict.accept
check-next g msg next now later modulo seq applied same is_next sane' fresh =
    let (on, sane, moved) = check-applied g msg now applied in
    let p = ap (producer (advance g msg now)) same ∙ producer-advance g msg now in
    let expected =
      ap (λ (q : Producer). seq_delta g.cfg.seq_modulo next.sequence q.expected_seq) p
      ∙ seq_delta-is_next g.cfg.seq_modulo msg.sequence next.sequence seq modulo is_next in
    rw moved (
      ap (λ (r : SignalVerdict × SignalGate). r.0)
        (check-passed (advance g msg now) next later on sane' fresh)
      ∙ settle-verdict (advance g msg now) next later
          (seq_verdict g.cfg (producer (advance g msg now) next.strategy_id) next.sequence)
      ∙ seq_verdict-in_order g.cfg (producer (advance g msg now) next.strategy_id) next.sequence
          expected)

-- After a message that was applied, its producer counts as alive exactly until the heartbeat
-- deadline, counted from that message.
pub heartbeat_alive-check :
    (g : SignalGate) (msg : SignalMessage) (now later : ℤ)
    → applies (check g msg now).0 ≡ true
    → heartbeat_alive (check g msg now).1 msg.strategy_id later
      ≡ leb_ℤ (later -ℤ now) (g.cfg.hb_interval *ℤ g.cfg.hb_threshold)
unfolding heartbeat_alive
heartbeat_alive-check g msg now later applied = rw (check-applied g msg now applied).2 (
    ap
      (λ (p : Producer).
        p.seen && leb_ℤ (later -ℤ p.last_accept) (g.cfg.hb_interval *ℤ g.cfg.hb_threshold))
      (producer-advance g msg now))
