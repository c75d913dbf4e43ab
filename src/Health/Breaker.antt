-- ===== src/Health/Breaker.antt =====
-- The public operations of CircuitBreakerHealthModel (include/oms/Health.h and src/Health.cpp): the
-- venues by id, and the handlers and queries.
use delta_assignment.Common.{ℕ, Bool, not, [], ◌∷◌, Option, some, is_some, if◌then◌else◌, ◌>>=◌}
use delta_assignment.Common.Int.{ℤ, pos}
use delta_assignment.Common.Dict.{Dict, lookup, insert}
use delta_assignment.Double.{Double}
use delta_assignment.Health.{
  HealthState, HealthScore, HealthConfig, VenueState, HealthEvent, fresh_venue, evaluate, handle,
  is_down,
}

pub record CircuitBreaker (W : Type 0) : Type 0 where
  pub cfg : HealthConfig W
  pub venues : Dict VenueState

module _ {W : Type 0} ⦃d : Double W⦄ where
  abbrev pub make_breaker : HealthConfig W → CircuitBreaker W
  make_breaker cfg = record { cfg = cfg; venues = [] }

  -- CircuitBreakerHealthModel::register_venue
  unfoldable pub register_venue : CircuitBreaker W → ℕ → ℤ → CircuitBreaker W
  register_venue m v now =
      if is_some (lookup v m.venues)
      then m
      else record m { venues = insert v (fresh_venue m.cfg now) m.venues }

  -- CircuitBreakerHealthModel::must_get
  abbrev pub must_get : CircuitBreaker W → ℕ → Option VenueState
  must_get m v = lookup v m.venues

  -- The handlers on_order_sent to on_reconnect, by their event.
  unfoldable pub on_event : CircuitBreaker W → ℕ → HealthEvent → ℤ → Option (CircuitBreaker W)
  unfolding handle
  on_event m v e now = do
    st ← must_get m v
    some (record m { venues = insert v (handle m.cfg now e st) m.venues })

  -- The loop of CircuitBreakerHealthModel::tick.
  abbrev pub tick_all : HealthConfig W → ℤ → Dict VenueState → Dict VenueState
  tick_all cfg now [] = []
  tick_all cfg now ((v, st) ∷ rest) = (v, evaluate cfg now st) ∷ tick_all cfg now rest

  -- CircuitBreakerHealthModel::tick
  unfoldable pub tick : CircuitBreaker W → ℤ → CircuitBreaker W
  tick m now = record m { venues = tick_all m.cfg now m.venues }

  abbrev pub weight_of : HealthConfig W → HealthState → W
  weight_of cfg HealthState.healthy = d.of_int (pos 1)
  weight_of cfg HealthState.degraded = cfg.degraded_weight
  weight_of cfg HealthState.probing = cfg.probe_weight
  weight_of cfg HealthState.down = d.of_int (pos 0)

  -- CircuitBreakerHealthModel::score
  unfoldable pub score : CircuitBreaker W → ℕ → Option (HealthScore W)
  score m v = do
    st ← must_get m v
    some (record { state = st.state; weight = weight_of m.cfg st.state; reason = st.reason })

  -- CircuitBreakerHealthModel::is_tradeable
  unfoldable pub is_tradeable : CircuitBreaker W → ℕ → Option Bool
  is_tradeable m v = do st ← must_get m v; some (not (is_down st.state))

  -- CircuitBreakerHealthModel::state, trips and unresolved
  abbrev pub state : CircuitBreaker W → ℕ → Option HealthState
  state m v = do st ← must_get m v; some st.state

  abbrev pub trips : CircuitBreaker W → ℕ → Option ℕ
  trips m v = do st ← must_get m v; some st.trips

  abbrev pub unresolved : CircuitBreaker W → ℕ → Option ℕ
  unresolved m v = do st ← must_get m v; some st.unresolved
