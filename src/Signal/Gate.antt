-- ===== src/Signal/Gate.antt =====
-- SignalGate of include/oms/Signal.h and src/Signal.cpp: what makes a message stale. The arithmetic on
-- sequence numbers is that of `uint64_t`; log lines are left out.
use delta_assignment.Common.{
  ℕ, ◌+◌, ◌-◌, ◌%◌, ◌^◌, Bool, true, false, List, [], ◌∷◌, leb, ◌==◌, ◌||◌, ◌&&◌, if◌then◌else◌,
}
use delta_assignment.Common.Int.{ℤ, pos, ◌-ℤ◌, ◌*ℤ◌, magnitude, ltb_ℤ, leb_ℤ}
use delta_assignment.Common.Dict.{Dict, find_or, insert}
use delta_assignment.Signal.{SignalMessage, TargetPosition}

pub data SignalVerdict : Type 0 where
  accept reject_dnt reject_age reject_absurd gap_accepted_logged duplicate_dropped : SignalVerdict

pub record SignalGateConfig : Type 0 where
  pub max_signal_age : ℤ
  pub seq_modulo : ℕ
  pub miss_threshold : ℕ
  pub hb_interval : ℤ
  pub hb_threshold : ℤ
  pub max_abs_target : ℤ

-- SignalGateConfig{}
abbrev pub default_config : SignalGateConfig
default_config = record {
  max_signal_age = pos 5000000000;
  seq_modulo = 65536;
  miss_threshold = 5;
  hb_interval = pos 60000000000;
  hb_threshold = pos 3;
  max_abs_target = pos 1000000000;
}

pub record Producer : Type 0 where
  pub expected_seq : ℕ
  pub seen : Bool
  pub last_accept : ℤ

-- Producer{}
abbrev pub unseen : Producer
unseen = record { expected_seq = 0; seen = false; last_accept = pos 0 }

pub record SignalGate : Type 0 where
  pub cfg : SignalGateConfig
  pub trading_enabled : Bool
  pub producers : Dict Producer

-- SignalGate::SignalGate
abbrev pub make_gate : SignalGateConfig → SignalGate
make_gate cfg = record { cfg = cfg; trading_enabled = false; producers = [] }

-- SignalGate::enable_trading
abbrev pub enable_trading : Bool → SignalGate → SignalGate
enable_trading on g = record g { trading_enabled = on }

abbrev pub is_absurd : SignalGateConfig → List TargetPosition → Bool
is_absurd cfg [] = false
is_absurd cfg (t ∷ ts) =
    ltb_ℤ cfg.max_abs_target (pos (magnitude t.signed_target)) || is_absurd cfg ts

-- (msg.sequence + mod - p.expected_seq) % mod
abbrev pub seq_delta : ℕ → ℕ → ℕ → ℕ
seq_delta modulo seq expected = (seq + modulo + (2 ^ 64 - expected)) % 2 ^ 64 % modulo

-- (3) of SignalGate::check: the verdict of a sequence number.
abbrev pub seq_verdict : SignalGateConfig → Producer → ℕ → SignalVerdict
seq_verdict cfg p seq =
    let delta = seq_delta cfg.seq_modulo seq p.expected_seq in
    if p.seen
    then (if delta == 0
        then SignalVerdict.accept
        else if leb ((cfg.seq_modulo + (2 ^ 64 - cfg.miss_threshold)) % 2 ^ 64) delta
        then SignalVerdict.duplicate_dropped
        else SignalVerdict.gap_accepted_logged)
    else SignalVerdict.accept

abbrev pub producer : SignalGate → ℕ → Producer
producer g id = find_or unseen id g.producers

-- A message that counts moves its producer on.
abbrev pub advance : SignalGate → SignalMessage → ℤ → SignalGate
advance g msg now = record g {
  producers =
      insert msg.strategy_id
        (record {
          expected_seq = (msg.sequence + 1) % 2 ^ 64 % g.cfg.seq_modulo;
          seen = true;
          last_accept = now;
        })
        g.producers;
}

-- The end of SignalGate::check, by the verdict on the sequence number.
abbrev pub settle : SignalGate → SignalMessage → ℤ → SignalVerdict → SignalVerdict × SignalGate
settle g msg now SignalVerdict.duplicate_dropped = (SignalVerdict.duplicate_dropped, g)
settle g msg now verdict = (verdict, advance g msg now)

-- SignalGate::check
unfoldable pub check : SignalGate → SignalMessage → ℤ → SignalVerdict × SignalGate
check g msg now =
    if g.trading_enabled
    then (if is_absurd g.cfg msg.targets
        then (SignalVerdict.reject_absurd, g)
        else if ltb_ℤ g.cfg.max_signal_age (now -ℤ msg.generated_at)
        then (SignalVerdict.reject_age, g)
        else settle g msg now (seq_verdict g.cfg (producer g msg.strategy_id) msg.sequence))
    else (SignalVerdict.reject_dnt, g)

-- SignalGate::heartbeat_alive
unfoldable pub heartbeat_alive : SignalGate → ℕ → ℤ → Bool
heartbeat_alive g id now =
    (producer g id).seen
    && leb_ℤ (now -ℤ (producer g id).last_accept) (g.cfg.hb_interval *ℤ g.cfg.hb_threshold)
