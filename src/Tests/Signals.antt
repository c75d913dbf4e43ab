-- ===== src/Tests/Signals.antt =====
-- Runs of the signal codec and of the signal gate.
use delta_assignment.Common.{ℕ, ◌≡◌, refl, true, false, some, [], ◌∷◌, arith}
use delta_assignment.Common.Int.{pos, negsuc, leb_ℤ, ltb_ℤ, ◌-ℤ◌, ◌*ℤ◌}
use delta_assignment.Signal.{SignalMessage, serialize_signal, deserialize_signal}
use delta_assignment.Signal.Codec.{Fits, deserialize-serialize}
use delta_assignment.Signal.Gate.{
  SignalGate, SignalVerdict, default_config, make_gate, enable_trading, check, heartbeat_alive,
  advance,
}
use delta_assignment.Signal.GateLaws.{applies, check-refused, check-next, heartbeat_alive-check}
use delta_assignment.Signal.Late.{check-late}

-- Long 250 of instrument 1, short 3 of instrument 2.
abbrev book : ℕ → SignalMessage
book seq = record {
  schema_version = 1;
  sequence = seq;
  generated_at = pos 1000;
  strategy_id = 4;
  targets =
      record { instrument = 1; signed_target = pos 250 }
      ∷ record { instrument = 2; signed_target = negsuc 2 }
      ∷ [];
}

abbrev open_gate : SignalGate
open_gate = enable_trading true (make_gate default_config)

book-Fits : Fits (book 65535)
book-Fits = record {
  schema_version = omega arith;
  sequence = omega arith;
  generated_at = omega arith;
  strategy_id = omega arith;
  count = omega arith;
  targets = ((omega arith, omega arith), ((omega arith, omega arith), tt));
}

deserialize-serialize_example :
    deserialize_signal (serialize_signal (book 65535)) ≡ some (book 65535)
deserialize-serialize_example = deserialize-serialize (book 65535) book-Fits

-- A gate boots in do-not-trade.
closed_at_boot : applies (check (make_gate default_config) (book 65535) (pos 1500)).0 ≡ false
unfolding check
closed_at_boot = refl

open_applies : applies (check open_gate (book 65535) (pos 1500)).0 ≡ true
unfolding check ◌-ℤ◌
open_applies = refl

opens : applies (check open_gate (book 17) (pos 1500)).0 ≡ true
unfolding check ◌-ℤ◌
opens = refl

fresh : ltb_ℤ default_config.max_signal_age (pos 1600 -ℤ pos 1000) ≡ false
unfolding ◌-ℤ◌
fresh = refl

check-refused_example :
    (check (make_gate default_config) (book 65535) (pos 1500)).1 ≡ make_gate default_config
check-refused_example =
    check-refused (make_gate default_config) (book 65535) (pos 1500) closed_at_boot

-- Eight behind: the message is applied again, since the miss threshold is 5.
check-late_example :
    let g' = (check open_gate (book 17) (pos 1500)).1 in
    check g' (book 10) (pos 1600)
    ≡ (SignalVerdict.gap_accepted_logged, advance g' (book 10) (pos 1600))
check-late_example =
    check-late open_gate (book 17) (book 10) (pos 1500) (pos 1600) 8 (omega arith) (omega arith)
      (omega arith) (omega arith) (omega arith) (omega arith) refl opens refl refl fresh

-- The sequence number wraps from 65535 to 0.
check-next_example :
    (check (check open_gate (book 65535) (pos 1500)).1 (book 0) (pos 1600)).0 ≡ SignalVerdict.accept
check-next_example =
    check-next open_gate (book 65535) (book 0) (pos 1500) (pos 1600) (omega arith) (omega arith)
      open_applies refl refl refl fresh

heartbeat_alive-check_example :
    heartbeat_alive (check open_gate (book 65535) (pos 1500)).1 4 (pos 9000)
    ≡ leb_ℤ (pos 9000 -ℤ pos 1500) (pos 60000000000 *ℤ pos 3)
heartbeat_alive-check_example =
    heartbeat_alive-check open_gate (book 65535) (pos 1500) (pos 9000) open_applies
