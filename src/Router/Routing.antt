-- ===== src/Router/Routing.antt =====
-- The router over the circuit breaker (src/Router.cpp, src/Health.cpp).
use delta_assignment.Common.{
  ℕ, Bool, true, false, not, List, [], ◌∷◌, none, some, ◌≡◌, sym, ap, ◌∙◌, ◌≢◌, ◌⊎◌, inl, inr,
  Bool-cases, bind-some, ◌>>=◌,
}
use delta_assignment.Common.Int.{ℤ, pos}
use delta_assignment.Common.Dict.{lookup}
use delta_assignment.Double.{Double}
use delta_assignment.Order.{Side}
use delta_assignment.Health.{HealthState, HealthScore, VenueState, is_down}
use delta_assignment.Health.Breaker.{CircuitBreaker, is_tradeable, score}
use delta_assignment.Router.{HealthModel, Best, is_better, take_better, weigh, choose, select}

not_down : (s : HealthState) → not (is_down s) ≡ true → s ≢ HealthState.down
not_down s h e = cc

module _ {W : Type 0} ⦃d : Double W⦄ where
  -- The circuit breaker as the health model of the router.
  abbrev pub breaker_health : CircuitBreaker W → HealthModel W
  breaker_health m = record { is_tradeable = is_tradeable m; score = score m }

  take_better-venue :
      (health : HealthModel W) (v u : ℕ) (w : W) (best : Best W)
      → health.is_tradeable v ≡ some true
      → (take_better v w best).venue ≡ some u
      → (best.venue ≡ some u) ⊎ (health.is_tradeable u ≡ some true)
  take_better-venue health v u w best t e = elim (Bool-cases (is_better w best)) [
    | inl better ↦
        let same : v ≡ u = cc (rw better at e) in inr (ap health.is_tradeable (sym same) ∙ t)
    | inr worse ↦ inl (rw worse at e)
  ]

  weigh-venue :
      (health : HealthModel W) (v u : ℕ) (b : Bool) (best best' : Best W)
      → health.is_tradeable v ≡ some b
      → weigh health v b best ≡ some best'
      → best'.venue ≡ some u
      → (best.venue ≡ some u) ⊎ (health.is_tradeable u ≡ some true)
  weigh-venue health v u false best best' t h e =
      let same : best ≡ best' = cc in inl (ap (λ (x : Best W). x.venue) same ∙ e)
  weigh-venue health v u true best best' t h e =
      let (s, sc, k) =
        bind-some (health.score v) (λ (s : HealthScore W). some (take_better v s.weight best)) best'
          h in
      let same : take_better v s.weight best ≡ best' = cc in
      take_better-venue health v u s.weight best t (ap (λ (x : Best W). x.venue) same ∙ e)

  choose-tradeable :
      (health : HealthModel W) (vs : List ℕ) (best best' : Best W) (u : ℕ)
      → choose health vs best ≡ some best'
      → best'.venue ≡ some u
      → (best.venue ≡ some u) ⊎ (health.is_tradeable u ≡ some true)
  choose-tradeable health [] best best' u h e =
      let same : best ≡ best' = cc in inl (ap (λ (x : Best W). x.venue) same ∙ e)
  choose-tradeable health (v ∷ vs) best best' u h e =
      let (b, t, k) =
        bind-some (health.is_tradeable v)
          (λ (b : Bool). weigh health v b best >>= (λ (x : Best W). choose health vs x)) best' h in
      let (one, f, k') =
        bind-some (weigh health v b best) (λ (x : Best W). choose health vs x) best' k in
      elim (choose-tradeable health vs one best' u k' e) [
        | inl g ↦ weigh-venue health v u b best one t f g
        | inr g ↦ inr g
      ]

  is_tradeable-not_down :
      (m : CircuitBreaker W) (v : ℕ)
      → is_tradeable m v ≡ some true
      → (st : VenueState) × (lookup v m.venues ≡ some st) × (st.state ≢ HealthState.down)
  unfolding is_tradeable
  is_tradeable-not_down m v h =
      let (st, e, k) =
        bind-some (lookup v m.venues) (λ (st : VenueState). some (not (is_down st.state))) true h in
      let up : not (is_down st.state) ≡ true = cc in (st, e, not_down st.state up)

  -- An order is never routed to a venue that is down: the venue that the router answers over the
  -- circuit breaker is registered there and its state is another one.
  pub select-not_down :
      (m : CircuitBreaker W) (venues : List ℕ) (inst v : ℕ) (side : Side) (qty : ℤ)
      → select (record { health = breaker_health m; venues = venues }) inst side qty ≡ some (some v)
      → (st : VenueState) × (lookup v m.venues ≡ some st) × (st.state ≢ HealthState.down)
  unfolding select
  select-not_down m venues inst v side qty h =
      let start : Best W = record { venue = none; weight = d.of_int (pos 0) } in
      let (best, e, k) =
        bind-some (choose (breaker_health m) venues start) (λ (x : Best W). some x.venue) (some v)
          h in
      elim (choose-tradeable (breaker_health m) venues start best v e cc) [
        | inl g ↦ absurd cc
        | inr g ↦ is_tradeable-not_down m v g
      ]
