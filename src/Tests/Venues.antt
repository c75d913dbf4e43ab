-- ===== src/Tests/Venues.antt =====
-- Runs of the ring buffer, of the circuit breaker and of the router.
use delta_assignment.Common.{ℕ, ◌≡◌, ◌≢◌, refl, List, [], ◌∷◌, Option, some, true, arith}
use delta_assignment.Common.Int.{ℤ, pos, ◌+ℤ◌, ◌-ℤ◌, ◌*ℤ◌, quot, int_laws}
use delta_assignment.Common.Dict.{lookup}
use delta_assignment.Order.{Side}
use delta_assignment.RingBuffer.{make_ring, push, fraction, percentile}
use delta_assignment.RingBuffer.Window.{window, latest, push_all, window-push_all}
use delta_assignment.Health.{
  HealthState, HealthConfig, HealthEvent, VenueState, TripReason, fresh_venue, assess, move,
  evaluate, note, handle, is_down,
}
use delta_assignment.Health.Breaker.{
  CircuitBreaker, make_breaker, register_venue, on_event, score, is_tradeable,
}
use delta_assignment.Health.Counting.{AllCounted, Step, Reach, Reach-AllCounted}
use delta_assignment.Health.Dwell.{handle_all, is_down-handle_all}
use delta_assignment.Health.Recovery.{acks, down_recovers}
use delta_assignment.Router.{HealthAwareRouter, select}
use delta_assignment.Router.Choice.{Answers, IsChoice, select-IsChoice}
use delta_assignment.Router.Routing.{breaker_health, select-not_down}
use delta_assignment.Tests.Thousandths.{thousandths, thousandths-IsWeakOrder}

abbrev samples : List ℕ
samples = 1 ∷ 2 ∷ 3 ∷ 4 ∷ 5 ∷ []

-- Five samples into a ring of three.
window-push_all_example : window (push_all samples (make_ring 3)) ≡ latest 3 samples
window-push_all_example = window-push_all 3 samples (omega arith)

latest_three : latest 3 samples ≡ 3 ∷ 4 ∷ 5 ∷ []
latest_three = refl

abbrev venue_config : HealthConfig ℤ
venue_config = record {
  heartbeat_tolerance_ns = pos 100;
  reject_window = 4;
  reject_min_samples = 2;
  reject_high = pos 500;
  reject_low = pos 200;
  latency_window = 4;
  latency_high_ns = pos 50;
  latency_low_ns = pos 20;
  degrade_dwell_ns = pos 10;
  down_dwell_ns = pos 30;
  probe_required = pos 2;
  probe_weight = pos 100;
  degraded_weight = pos 500;
  p99 = pos 990;
}

abbrev empty : CircuitBreaker ℤ
empty = make_breaker venue_config

abbrev registered : CircuitBreaker ℤ
registered = register_venue (register_venue empty 1 (pos 1)) 2 (pos 1)

-- Venue 1 after a disconnect, which degrades it.
abbrev degraded_one : VenueState
degraded_one = handle venue_config (pos 5) HealthEvent.disconnect (fresh_venue venue_config (pos 1))

abbrev tripped : CircuitBreaker ℤ
tripped = record {
  cfg = venue_config;
  venues = (1, degraded_one) ∷ (2, fresh_venue venue_config (pos 1)) ∷ [];
}

tripped_by : on_event registered 1 HealthEvent.disconnect (pos 5) ≡ some tripped
unfolding on_event register_venue handle
tripped_by = refl

degraded_state : degraded_one.state ≡ HealthState.degraded
unfolding handle note evaluate assess move fraction percentile push
degraded_state = refl

two_venues_tripped : Reach empty tripped
two_venues_tripped =
    Reach.next
      (Reach.next (Reach.next Reach.here (Step.registers 1 (pos 1))) (Step.registers 2 (pos 1)))
      (Step.handles 1 HealthEvent.disconnect (pos 5) tripped_by)

Reach-AllCounted_example : AllCounted tripped.venues
Reach-AllCounted_example = Reach-AllCounted venue_config two_venues_tripped

-- Venue 1 that is down, connected again, and heard of at 40.
abbrev down_venue : VenueState
down_venue = record (fresh_venue venue_config (pos 40)) {
  state = HealthState.down;
  reason = TripReason.connectivity;
  trips = 1;
  unresolved = 1;
}

is_down-handle_all_example :
    is_down
      (handle_all venue_config
        ((pos 41, HealthEvent.fill) ∷ (pos 60, HealthEvent.ack (pos 5)) ∷ [])
        down_venue).state
    ≡ true
is_down-handle_all_example =
    is_down-handle_all venue_config (pos 40)
      ((pos 41, HealthEvent.fill) ∷ (pos 60, HealthEvent.ack (pos 5)) ∷ []) down_venue refl refl
      (omega int_laws, omega int_laws, (omega int_laws, omega int_laws, tt))

-- The good spell starts at 41 and lasts to 75, and two acks at 76 and 77 are fast.
down_recovers_example :
    (handle_all venue_config
      (acks ((pos 76, pos 5) ∷ (pos 77, pos 6) ∷ []))
      (evaluate venue_config (pos 75) (evaluate venue_config (pos 41) down_venue))).state
    ≡ HealthState.healthy
unfolding evaluate assess move handle note fraction percentile push ◌-ℤ◌ ◌+ℤ◌ ◌*ℤ◌ quot
down_recovers_example =
    down_recovers venue_config down_venue (pos 41) (pos 75) (pos 76) (pos 5) ((pos 77, pos 6) ∷ [])
      refl refl refl refl refl (omega arith) (omega arith)
      (omega arith, refl, (omega arith, refl, tt))

abbrev two_venues : HealthAwareRouter ℤ
two_venues = record { health = breaker_health tripped; venues = 1 ∷ 2 ∷ [] }

two_venues-Answers : Answers two_venues.health two_venues.venues
unfolding is_tradeable score handle note
two_venues-Answers = ((_, refl), (_, refl), ((_, refl), (_, refl), tt))

select-IsChoice_example :
    (answer : Option ℕ) × (w : ℤ) × (select two_venues 7 Side.buy (pos 10) ≡ some answer)
    × IsChoice two_venues.health two_venues.venues answer w
select-IsChoice_example =
    select-IsChoice thousandths-IsWeakOrder two_venues 7 Side.buy (pos 10) two_venues-Answers

-- The degraded venue 1 weighs less than the healthy venue 2.
routed_to_two : select two_venues 7 Side.buy (pos 10) ≡ some (some 2)
unfolding select is_tradeable score handle note evaluate assess move fraction percentile push ◌*ℤ◌
    ◌-ℤ◌ quot
routed_to_two = refl

select-not_down_example :
    (st : VenueState) × (lookup 2 tripped.venues ≡ some st) × (st.state ≢ HealthState.down)
select-not_down_example = select-not_down tripped (1 ∷ 2 ∷ []) 7 2 Side.buy (pos 10) routed_to_two
