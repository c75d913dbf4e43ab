-- ===== src/Router/Choice.antt =====
-- The venue that the router chooses (src/Router.cpp), and the composition with the circuit breaker.
use delta_assignment.Common.{
  ℕ, Bool, true, false, List, [], ◌∷◌, ◌++◌, Option, none, some, ◌≡◌, refl, sym, ap, subst, ◌∙◌,
  ◌⊎◌, inl, inr, Bool-cases, append_assoc, append-nil,
}
use delta_assignment.Common.Int.{ℤ, pos}
use delta_assignment.Double.{Double}
use delta_assignment.Order.{Side}
use delta_assignment.Health.{HealthScore}
use delta_assignment.Router.{
  HealthModel, HealthAwareRouter, Best, take_better, weigh, choose, select,
}

-- The order of doubles that are not NaN.
pub record IsWeakOrder (W : Type 0) ⦃d : Double W⦄ : Type 0 where
  pub trans : (a b c : W) → d.lt a b ≡ true → d.lt b c ≡ true → d.lt a c ≡ true
  pub cotrans : (a b c : W) → d.lt a c ≡ true → (d.lt a b ≡ true) ⊎ (d.lt b c ≡ true)

module _ {W : Type 0} ⦃d : Double W⦄ where
  -- Whether a venue, if it may be traded, has a score whose weight satisfies a predicate.
  abbrev pub Offers : HealthModel W → (W → Type 0) → ℕ → Type 0
  Offers health P u =
      (health.is_tradeable u ≡ some false)
      ⊎ ((s : HealthScore W) × (health.is_tradeable u ≡ some true)
          × (health.score u ≡ some s)
          × P s.weight)

  abbrev pub Each : HealthModel W → (W → Type 0) → List ℕ → Type 0
  Each health P [] = Unit {0}
  Each health P (u ∷ us) = Offers health P u × Each health P us

  Offers-map :
      (health : HealthModel W) (P Q : W → Type 0) (f : (w : W) → P w → Q w) (u : ℕ)
      → Offers health P u
      → Offers health Q u
  Offers-map health P Q f u (inl h) = inl h
  Offers-map health P Q f u (inr (s, h, e, p)) = inr (s, h, e, f s.weight p)

  Each-map :
      (health : HealthModel W) (P Q : W → Type 0) (f : (w : W) → P w → Q w) (us : List ℕ)
      → Each health P us
      → Each health Q us
  Each-map health P Q f [] h = tt
  Each-map health P Q f (u ∷ us) (h, hs) =
      (Offers-map health P Q f u h, Each-map health P Q f us hs)

  Each-append :
      (health : HealthModel W) (P : W → Type 0) (us vs : List ℕ)
      → Each health P us
      → Each health P vs
      → Each health P (us ++ vs)
  Each-append health P [] vs h k = k
  Each-append health P (u ∷ us) vs (h, hs) k = (h, Each-append health P us vs hs k)

  abbrev Below : W → W → Type 0
  Below w t = d.lt t w ≡ true

  abbrev NotAbove : W → W → Type 0
  NotAbove w t = d.lt w t ≡ false

  -- The first venue of a list among those of the greatest weight.
  abbrev pub FirstBest : HealthModel W → List ℕ → ℕ → W → Type 0
  FirstBest health us v w =
      (before : List ℕ) × (after : List ℕ) × (s : HealthScore W) × (us ≡ before ++ (v ∷ after))
      × (health.is_tradeable v ≡ some true)
      × (health.score v ≡ some s)
      × (s.weight ≡ w)
      × Each health (Below w) before
      × Each health (NotAbove w) after

  -- What the router may answer for a list of venues.
  abbrev pub IsChoice : HealthModel W → List ℕ → Option ℕ → W → Type 0
  IsChoice health us none w = Each health (λ (t : W). ⊥) us
  IsChoice health us (some v) w = FirstBest health us v w

  FirstBest-snoc :
      (health : HealthModel W) (us : List ℕ) (v u : ℕ) (w : W)
      → Offers health (NotAbove w) u
      → FirstBest health us v w
      → FirstBest health (us ++ (u ∷ [])) v w
  FirstBest-snoc health us v u w h (before, after, s, e, t, sc, ws, b, a) = (
    before,
    after ++ (u ∷ []),
    s,
    ap (λ (q : List ℕ). q ++ (u ∷ [])) e ∙ append_assoc before (v ∷ after) (u ∷ []),
    t,
    sc,
    ws,
    b,
    Each-append health (NotAbove w) after (u ∷ []) a (h, tt),
  )

  -- A venue that beats the choice so far is the first best.
  FirstBest-beaten :
      (laws : IsWeakOrder W) (health : HealthModel W) (us : List ℕ) (v u : ℕ) (w : W)
      (s : HealthScore W)
      → health.is_tradeable u ≡ some true
      → health.score u ≡ some s
      → d.lt w s.weight ≡ true
      → FirstBest health us v w
      → FirstBest health (us ++ (u ∷ [])) u s.weight
  FirstBest-beaten laws health us v u w s t sc h (before, after, s', e, t', sc', ws, b, a) =
      let below : Each health (Below s.weight) before =
        Each-map health (Below w) (Below s.weight) (λ (x : W). λ k. laws.trans x w s.weight k h)
          before b in
      let above : Each health (Below s.weight) after =
        Each-map health (NotAbove w) (Below s.weight)
          (λ (x : W). λ k. elim (laws.cotrans w x s.weight h) [ inl less ↦ cc | inr more ↦ more ])
          after a in
      let at : Offers health (Below s.weight) v =
        inr (s', t', sc', subst (λ (q : W). d.lt q s.weight ≡ true) (sym ws) h) in
      let all = Each-append health (Below s.weight) before (v ∷ after) below (at, above) in
      (us, [], s, refl, t, sc, refl, subst (Each health (Below s.weight)) (sym e) all, tt)

  -- The health model answers about every venue: none is unregistered.
  abbrev pub Answers : HealthModel W → List ℕ → Type 0
  Answers health [] = Unit {0}
  Answers health (v ∷ vs) =
      ((b : Bool) × (health.is_tradeable v ≡ some b))
      × ((s : HealthScore W) × (health.score v ≡ some s))
      × Answers health vs

  -- One round of the loop, at a tradeable venue.
  take_better-IsChoice :
      (laws : IsWeakOrder W) (health : HealthModel W) (us : List ℕ) (v : ℕ) (s : HealthScore W)
      (o : Option ℕ) (w : W)
      → health.is_tradeable v ≡ some true
      → health.score v ≡ some s
      → IsChoice health us o w
      → let best : Best W = take_better v s.weight (record { venue = o; weight = w }) in
        IsChoice health (us ++ (v ∷ [])) best.venue best.weight
  take_better-IsChoice laws health us v s none w t sc c = (
    us,
    [],
    s,
    refl,
    t,
    sc,
    refl,
    Each-map health (λ (x : W). ⊥) (Below s.weight) (λ (x : W). λ k. absurd k) us c,
    tt,
  )
  take_better-IsChoice laws health us v s (some u) w t sc c = elim (Bool-cases (d.lt w s.weight)) [
    | inl better ↦ rw better (FirstBest-beaten laws health us u v w s t sc better c)
    | inr worse ↦ rw worse (FirstBest-snoc health us u v w (inr (s, t, sc, worse)) c)
  ]

  skip-IsChoice :
      (health : HealthModel W) (us : List ℕ) (v : ℕ) (o : Option ℕ) (w : W)
      → health.is_tradeable v ≡ some false
      → IsChoice health us o w
      → IsChoice health (us ++ (v ∷ [])) o w
  skip-IsChoice health us v none w t c = Each-append health (λ (x : W). ⊥) us (v ∷ []) c (inl t, tt)
  skip-IsChoice health us v (some u) w t c = FirstBest-snoc health us u v w (inl t) c

  weigh-IsChoice :
      (laws : IsWeakOrder W) (health : HealthModel W) (us : List ℕ) (v : ℕ) (b : Bool)
      (s : HealthScore W) (best : Best W)
      → health.is_tradeable v ≡ some b
      → health.score v ≡ some s
      → IsChoice health us best.venue best.weight
      → (best' : Best W) × (weigh health v b best ≡ some best')
        × IsChoice health (us ++ (v ∷ [])) best'.venue best'.weight
  weigh-IsChoice laws health us v false s best t sc c =
      (best, refl, skip-IsChoice health us v best.venue best.weight t c)
  weigh-IsChoice laws health us v true s best t sc c = (
    take_better v s.weight best,
    rw sc refl,
    take_better-IsChoice laws health us v s best.venue best.weight t sc c,
  )

  choose-IsChoice :
      (laws : IsWeakOrder W) (health : HealthModel W) (vs us : List ℕ) (best : Best W)
      → Answers health vs
      → IsChoice health us best.venue best.weight
      → (best' : Best W) × (choose health vs best ≡ some best')
        × IsChoice health (us ++ vs) best'.venue best'.weight
  choose-IsChoice laws health [] us best a c = (
    best,
    refl,
    subst (λ (q : List ℕ). IsChoice health q best.venue best.weight) (sym (append-nil us)) c,
  )
  choose-IsChoice laws health (v ∷ vs) us best ((b, t), (s, sc), a) c =
      let (one, e, c1) = weigh-IsChoice laws health us v b s best t sc c in
      let (two, e', c2) = choose-IsChoice laws health vs (us ++ (v ∷ [])) one a c1 in
      (
        two,
        rw (t, e) e',
        subst (λ (q : List ℕ). IsChoice health q two.venue two.weight) (append_assoc us (v ∷ []) vs)
            c2,
      )

  -- The router answers the first venue of the greatest weight among those that may be traded, and
  -- none exactly where no venue may: for a health model that knows every venue, and weights that
  -- are not NaN.
  pub select-IsChoice :
      (laws : IsWeakOrder W) (r : HealthAwareRouter W) (inst : ℕ) (side : Side) (qty : ℤ)
      → Answers r.health r.venues
      → (answer : Option ℕ) × (w : W) × (select r inst side qty ≡ some answer)
        × IsChoice r.health r.venues answer w
  unfolding select
  select-IsChoice laws r inst side qty a =
      let (best, e, c) =
        choose-IsChoice laws r.health r.venues []
          (record { venue = none; weight = d.of_int (pos 0) }) a tt in
      (best.venue, best.weight, rw e refl, c)
