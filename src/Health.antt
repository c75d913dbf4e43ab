-- ===== src/Health.antt =====
-- CircuitBreakerHealthModel of include/oms/Health.h and src/Health.cpp. The
-- clock is read once in each handler: the time is an argument. Log lines are left out. A failed
-- assertion (an unknown venue) is `none`.
pub mod Breaker
pub mod Counting
pub mod Dwell
pub mod Recovery
use delta_assignment.Common.{
  bump, ℕ, ◌+◌, ◌-◌, ◌%◌, ◌^◌, Bool, true, false, not, ◌&&◌, ◌||◌, List, [], ◌∷◌, Option, none,
  some, length, is_empty, ltb, leb, ◌==◌, is_some, if◌then◌else◌, ◌>>=◌,
}
use delta_assignment.Common.Int.{ℤ, pos, ◌+ℤ◌, ◌-ℤ◌, ltb_ℤ, leb_ℤ, eqb_ℤ}
use delta_assignment.Common.Dict.{Dict, lookup, insert}
use delta_assignment.Double.{Double}
use delta_assignment.RingBuffer.{RingBuffer, make_ring, push, fraction, percentile}

pub data HealthState : Type 0 where
  healthy degraded down probing : HealthState

pub data TripReason : Type 0 where
  no_reason connectivity rejection_rate ack_latency : TripReason

pub record HealthScore (W : Type 0) : Type 0 where
  pub state : HealthState
  pub weight : W
  pub reason : TripReason

-- `p99` is the constant 0.99 of the latency percentile.
pub record HealthConfig (W : Type 0) : Type 0 where
  pub heartbeat_tolerance_ns : ℤ
  pub reject_window : ℕ
  pub reject_min_samples : ℕ
  pub reject_high : W
  pub reject_low : W
  pub latency_window : ℕ
  pub latency_high_ns : ℤ
  pub latency_low_ns : ℤ
  pub degrade_dwell_ns : ℤ
  pub down_dwell_ns : ℤ
  pub probe_required : ℤ
  pub probe_weight : W
  pub degraded_weight : W
  pub p99 : W

pub record VenueState : Type 0 where
  pub connected : Bool
  pub last_seen : ℤ
  pub rejects : RingBuffer ℕ
  pub latencies : RingBuffer ℤ
  pub state : HealthState
  pub reason : TripReason
  pub degraded_since : ℤ
  pub good_since : ℤ
  pub probe_success : ℤ
  pub trips : ℕ
  pub unresolved : ℕ

pub record Conditions : Type 0 where
  pub any_high : Bool
  pub all_low : Bool
  pub reason : TripReason

-- `if (v.unresolved > 0) --v.unresolved`
abbrev pub resolve : ℕ → ℕ
resolve n = if ltb 0 n then n - 1 else n

abbrev pub go_down : TripReason → VenueState → VenueState
go_down why v = record v { state = HealthState.down; reason = why; good_since = pos 0 }

abbrev pub go_healthy : VenueState → VenueState
go_healthy v = record v {
  state = HealthState.healthy;
  reason = TripReason.no_reason;
  unresolved = resolve v.unresolved;
}

abbrev pub trip : TripReason → ℤ → VenueState → VenueState
trip why now v = record v {
  state = HealthState.degraded;
  degraded_since = now;
  reason = why;
  trips = bump v.trips;
  unresolved = bump v.unresolved;
}

abbrev pub start_probing : VenueState → VenueState
start_probing v = record v { state = HealthState.probing; probe_success = pos 0 }

abbrev pub is_probing : HealthState → Bool
is_probing HealthState.probing = true
is_probing _ = false

abbrev pub is_down : HealthState → Bool
is_down HealthState.down = true
is_down _ = false

-- What a handler notes of its event before it evaluates. `sent` has the time stamp that it is given.
pub data HealthEvent : Type 0 where
  sent : ℤ → HealthEvent
  ack : ℤ → HealthEvent
  reject : Bool → HealthEvent
  fill timeout disconnect reconnect ticked : HealthEvent

module _ {W : Type 0} ⦃d : Double W⦄ where
  -- VenueState::VenueState, and the time of registration
  abbrev pub fresh_venue : HealthConfig W → ℤ → VenueState
  fresh_venue cfg now = record {
    connected = true;
    last_seen = now;
    rejects = make_ring cfg.reject_window;
    latencies = make_ring cfg.latency_window;
    state = HealthState.healthy;
    reason = TripReason.no_reason;
    degraded_since = pos 0;
    good_since = pos 0;
    probe_success = pos 0;
    trips = 0;
    unresolved = 0;
  }

  -- CircuitBreakerHealthModel::assess
  unfoldable pub assess : HealthConfig W → VenueState → ℤ → Conditions
  assess cfg v now =
      let conn_bad = not v.connected || ltb_ℤ cfg.heartbeat_tolerance_ns (now -ℤ v.last_seen) in
      let enough = leb cfg.reject_min_samples (length v.rejects.buf) in
      let rej = fraction (λ x. x == 1) v.rejects in
      let rej_high = enough && d.lt cfg.reject_high rej in
      let rej_low = not enough || d.lt rej cfg.reject_low in
      let have_lat = not (is_empty v.latencies.buf) in
      let p99 = percentile cfg.p99 v.latencies in
      let lat_high = have_lat && ltb_ℤ cfg.latency_high_ns p99 in
      let lat_low = not have_lat || ltb_ℤ p99 cfg.latency_low_ns in
      record {
        any_high = conn_bad || (rej_high || lat_high);
        all_low = not conn_bad && (rej_low && lat_low);
        reason =
            if conn_bad
            then TripReason.connectivity
            else if rej_high
            then TripReason.rejection_rate
            else if lat_high
            then TripReason.ack_latency
            else TripReason.no_reason;
      }

  -- The `switch` of CircuitBreakerHealthModel::evaluate.
  unfoldable pub move : HealthConfig W → Conditions → ℤ → HealthState → VenueState → VenueState
  move cfg c now HealthState.healthy v = if c.any_high then trip c.reason now v else v
  move cfg c now HealthState.degraded v =
      if c.all_low
      then go_healthy v
      else if c.any_high && leb_ℤ cfg.degrade_dwell_ns (now -ℤ v.degraded_since)
      then go_down c.reason v
      else v
  move cfg c now HealthState.down v =
      if c.all_low
      then (if eqb_ℤ v.good_since (pos 0)
          then record v { good_since = now }
          else if leb_ℤ cfg.down_dwell_ns (now -ℤ v.good_since)
          then start_probing v
          else v)
      else record v { good_since = pos 0 }
  move cfg c now HealthState.probing v =
      if c.any_high
      then go_down c.reason v
      else if leb_ℤ cfg.probe_required v.probe_success
      then go_healthy v
      else v

  -- CircuitBreakerHealthModel::evaluate
  unfoldable pub evaluate : HealthConfig W → ℤ → VenueState → VenueState
  unfolding move
  evaluate cfg now v = move cfg (assess cfg v now) now v.state v

  unfoldable pub note : HealthConfig W → ℤ → HealthEvent → VenueState → VenueState
  note cfg now (sent ts) v = record v { last_seen = ts }
  note cfg now (ack lat) v = record v {
    last_seen = now;
    latencies = push lat v.latencies;
    rejects = push 0 v.rejects;
    probe_success =
        if is_probing v.state && leb_ℤ lat cfg.latency_high_ns
        then v.probe_success +ℤ pos 1
        else v.probe_success;
  }
  note cfg now (reject is_false_cancel_reject) v = record v {
    last_seen = now;
    rejects = if is_false_cancel_reject then v.rejects else push 1 v.rejects;
  }
  note cfg now fill v = record v { last_seen = now }
  note cfg now timeout v = record v { rejects = push 1 v.rejects }
  note cfg now disconnect v = record v { connected = false }
  note cfg now reconnect v = record v { connected = true; last_seen = now }
  note cfg now ticked v = v

  -- A handler, on the state of its venue.
  unfoldable pub handle : HealthConfig W → ℤ → HealthEvent → VenueState → VenueState
  unfolding evaluate note
  handle cfg now e v = evaluate cfg now (note cfg now e v)
