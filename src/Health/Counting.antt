-- ===== src/Health/Counting.antt =====
-- The counter of unresolved trips (src/Health.cpp) over every history of a health model.
use delta_assignment.Common.{
  ℕ, ◌≡◌, refl, subst, [], ◌∷◌, Option, none, some, inl, inr, arith, ◌==◌, Bool-cases, is_some,
  ◌>>=◌,
}
use delta_assignment.Common.Int.{ℤ}
use delta_assignment.Common.Dict.{Dict, lookup, insert}
use delta_assignment.Double.{Double}
use delta_assignment.Health.{
  HealthState, HealthConfig, Conditions, VenueState, HealthEvent, fresh_venue, move, evaluate,
  handle,
}
use delta_assignment.Health.Breaker.{
  CircuitBreaker, make_breaker, register_venue, on_event, tick, tick_all,
}

-- A venue that is not healthy has one trip that is not resolved, a healthy one has none.
abbrev pub open_trips : HealthState → ℕ
open_trips HealthState.healthy = 0
open_trips _ = 1

abbrev pub IsCounted : VenueState → Type 0
IsCounted v = v.unresolved ≡ open_trips v.state

abbrev pub AllCounted : Dict VenueState → Type 0
AllCounted [] = Unit {0}
AllCounted ((id, v) ∷ rest) = IsCounted v × AllCounted rest

AllCounted-insert :
    (id : ℕ) (v : VenueState) (vs : Dict VenueState)
    → IsCounted v
    → AllCounted vs
    → AllCounted (insert id v vs)
AllCounted-insert id v [] h a = (h, tt)
AllCounted-insert id v ((j, w) ∷ rest) h a = elim (Bool-cases (id == j)) [
  | inl e ↦ rw e (h, a.1)
  | inr e ↦ rw e (a.0, AllCounted-insert id v rest h a.1)
]

AllCounted-lookup :
    (id : ℕ) (v : VenueState) (vs : Dict VenueState)
    → AllCounted vs
    → lookup id vs ≡ some v
    → IsCounted v
AllCounted-lookup id v [] a h = cc
AllCounted-lookup id v ((j, w) ∷ rest) a h = elim (Bool-cases (id == j)) [
  | inl e ↦ let same : w ≡ v = cc (rw e at h) in subst IsCounted same a.0
  | inr e ↦ AllCounted-lookup id v rest a.1 (rw e at h)
]

module _ {W : Type 0} ⦃d : Double W⦄ where
  move-IsCounted :
      (cfg : HealthConfig W) (c : Conditions) (now : ℤ) (s : HealthState) (v : VenueState)
      → v.state ≡ s
      → IsCounted v
      → IsCounted (move cfg c now s v)
  unfolding move
  move-IsCounted cfg c now HealthState.healthy v e h = ground arith
  move-IsCounted cfg c now HealthState.degraded v e h = ground arith
  move-IsCounted cfg c now HealthState.down v e h = ground arith
  move-IsCounted cfg c now HealthState.probing v e h = ground arith

  evaluate-IsCounted :
      (cfg : HealthConfig W) (now : ℤ) (v : VenueState)
      → IsCounted v
      → IsCounted (evaluate cfg now v)
  unfolding evaluate
  evaluate-IsCounted cfg now v h = move-IsCounted cfg _ now v.state v refl h

  handle-IsCounted :
      (cfg : HealthConfig W) (now : ℤ) (e : HealthEvent) (v : VenueState)
      → IsCounted v
      → IsCounted (handle cfg now e v)
  unfolding handle
  handle-IsCounted cfg now (HealthEvent.sent ts) v h = evaluate-IsCounted cfg now _ h
  handle-IsCounted cfg now (HealthEvent.ack lat) v h = evaluate-IsCounted cfg now _ h
  handle-IsCounted cfg now (HealthEvent.reject b) v h = evaluate-IsCounted cfg now _ h
  handle-IsCounted cfg now HealthEvent.fill v h = evaluate-IsCounted cfg now _ h
  handle-IsCounted cfg now HealthEvent.timeout v h = evaluate-IsCounted cfg now _ h
  handle-IsCounted cfg now HealthEvent.disconnect v h = evaluate-IsCounted cfg now _ h
  handle-IsCounted cfg now HealthEvent.reconnect v h = evaluate-IsCounted cfg now _ h
  handle-IsCounted cfg now HealthEvent.ticked v h = evaluate-IsCounted cfg now v h

  -- A call on a health model.
  pub data Step (m : CircuitBreaker W) : CircuitBreaker W → Type 0 where
    registers : (v : ℕ) (now : ℤ) → Step m (register_venue m v now)
    handles :
        {m' : CircuitBreaker W} (v : ℕ) (e : HealthEvent) (now : ℤ)
        → on_event m v e now ≡ some m'
        → Step m m'
    ticks : (now : ℤ) → Step m (tick m now)

  pub data Reach (m : CircuitBreaker W) : CircuitBreaker W → Type 0 where
    here : Reach m m
    next : {n k : CircuitBreaker W} → Reach m n → Step n k → Reach m k

  tick_all-AllCounted :
      (cfg : HealthConfig W) (now : ℤ) (vs : Dict VenueState)
      → AllCounted vs
      → AllCounted (tick_all cfg now vs)
  tick_all-AllCounted cfg now [] a = tt
  tick_all-AllCounted cfg now ((j, w) ∷ rest) (h, a) =
      (evaluate-IsCounted cfg now w h, tick_all-AllCounted cfg now rest a)

  handled-AllCounted :
      (m m' : CircuitBreaker W) (v : ℕ) (e : HealthEvent) (now : ℤ) (found : Option VenueState)
      → ((st : VenueState) → found ≡ some st → IsCounted st)
      → AllCounted m.venues
      → (found >>= λ st. some (record m { venues = insert v (handle m.cfg now e st) m.venues }))
        ≡ some m'
      → AllCounted m'.venues
  handled-AllCounted m m' v e now none h a eq = cc
  handled-AllCounted m m' v e now (some st) h a eq =
      let after = record m { venues = insert v (handle m.cfg now e st) m.venues } in
      let same : after ≡ m' = cc eq in
      subst (λ (k : CircuitBreaker W). AllCounted k.venues) same
        (AllCounted-insert v (handle m.cfg now e st) m.venues
          (handle-IsCounted m.cfg now e st (h st refl)) a)

  Step-AllCounted :
      {m m' : CircuitBreaker W} → Step m m' → AllCounted m.venues → AllCounted m'.venues
  unfolding register_venue on_event tick
  Step-AllCounted {m} (registers v now) a = elim (Bool-cases (is_some (lookup v m.venues))) [
    | inl e ↦ rw e a
    | inr e ↦ rw e (AllCounted-insert v (fresh_venue m.cfg now) m.venues refl a)
  ]
  Step-AllCounted {m} (handles {m' = m'} v e now eq) a =
      handled-AllCounted m m' v e now (lookup v m.venues) (λ st. AllCounted-lookup v st m.venues a)
        a eq
  Step-AllCounted {m} (ticks now) a = tick_all-AllCounted m.cfg now m.venues a

  -- After any history of registrations, events and ticks, every venue has exactly one unresolved
  -- trip unless it is healthy, when it has none: each trip is resolved once, on the way back to
  -- healthy.
  pub Reach-AllCounted :
      (cfg : HealthConfig W) {m : CircuitBreaker W}
      → Reach (make_breaker cfg) m
      → AllCounted m.venues
  Reach-AllCounted cfg here = tt
  Reach-AllCounted cfg (next r s) = Step-AllCounted s (Reach-AllCounted cfg r)
