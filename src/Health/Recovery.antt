-- ===== src/Health/Recovery.antt =====
-- How a venue that is down comes back (src/Health.cpp).
use delta_assignment.Common.{
  ℕ, suc, ◌≡◌, refl, ap, ◌∙◌, Bool, true, false, List, [], ◌∷◌, length, inl, inr, ◌⊎◌, Bool-cases,
  subst, if◌then◌else◌, ◌&&◌, arith,
}
use delta_assignment.Common.Int.{ℤ, pos, ◌+ℤ◌, ◌-ℤ◌, ◌≤ℤ◌, leb_ℤ, eqb_ℤ, int_laws}
use delta_assignment.Double.{Double}
use delta_assignment.Health.{
  HealthState, HealthConfig, Conditions, VenueState, HealthEvent, assess, move, evaluate, note,
  handle, start_probing, is_probing,
}
use delta_assignment.Health.Dwell.{handle_all}

≤→leb_ℤ : (a b : ℤ) → a ≤ℤ b → leb_ℤ a b ≡ true
≤→leb_ℤ a b h = ground arith

one_more :
    (required done done' left : ℤ)
    → required ≤ℤ done +ℤ (pos 1 +ℤ left)
    → done' ≡ done +ℤ pos 1
    → required ≤ℤ done' +ℤ left
one_more required done done' left h e = rw e (omega int_laws)

none_missing : (required done : ℤ) → required ≤ℤ done +ℤ pos 0 → leb_ℤ required done ≡ true
none_missing required done h = ≤→leb_ℤ required done (omega int_laws)

pos-suc : (n : ℕ) → pos (suc n) ≡ pos 1 +ℤ pos n
pos-suc n = omega int_laws

enough_probes :
    (required : ℤ) (n : ℕ) → required ≤ℤ pos (suc n) → required ≤ℤ pos 0 +ℤ (pos 1 +ℤ pos n)
enough_probes required n h = omega int_laws

abbrev pub acks : List (ℤ × ℤ) → List (ℤ × HealthEvent)
acks [] = []
acks ((now, lat) ∷ rest) = (now, HealthEvent.ack lat) ∷ acks rest

module _ {W : Type 0} ⦃d : Double W⦄ where
  -- Acks below the latency threshold, after each of which no signal is high.
  abbrev pub AcksAreGood : HealthConfig W → List (ℤ × ℤ) → VenueState → Type 0
  AcksAreGood cfg [] v = Unit {0}
  AcksAreGood cfg ((now, lat) ∷ rest) v =
      (lat ≤ℤ cfg.latency_high_ns)
      × ((assess cfg (note cfg now (HealthEvent.ack lat) v) now).any_high ≡ false)
      × AcksAreGood cfg rest (handle cfg now (HealthEvent.ack lat) v)

  evaluate-eq-move :
      (cfg : HealthConfig W) (now : ℤ) (v : VenueState) (s : HealthState)
      → v.state ≡ s
      → evaluate cfg now v ≡ move cfg (assess cfg v now) now s v
  unfolding evaluate
  evaluate-eq-move cfg now v s e = ap (λ (s : HealthState). move cfg (assess cfg v now) now s v) e

  assess-good_since :
      (cfg : HealthConfig W) (v : VenueState) (t now : ℤ)
      → assess cfg (record v { good_since = t }) now ≡ assess cfg v now
  unfolding assess
  assess-good_since cfg v t now = refl

  spell_starts :
      (cfg : HealthConfig W) (c : Conditions) (now : ℤ) (v : VenueState)
      → c.all_low ≡ true
      → eqb_ℤ v.good_since (pos 0) ≡ true
      → move cfg c now HealthState.down v ≡ record v { good_since = now }
  unfolding move
  spell_starts cfg c now v a z = rw (a, z) refl

  spell_lasts :
      (cfg : HealthConfig W) (c : Conditions) (now : ℤ) (v : VenueState)
      → c.all_low ≡ true
      → eqb_ℤ v.good_since (pos 0) ≡ false
      → leb_ℤ cfg.down_dwell_ns (now -ℤ v.good_since) ≡ true
      → move cfg c now HealthState.down v ≡ start_probing v
  unfolding move
  spell_lasts cfg c now v a z h = rw (a, z, h) refl

  -- Two evaluations in a good spell that lasts for the dwell.
  evaluate-evaluate :
      (cfg : HealthConfig W) (v : VenueState) (t1 t2 : ℤ)
      → v.state ≡ HealthState.down
      → v.good_since ≡ pos 0
      → eqb_ℤ t1 (pos 0) ≡ false
      → (assess cfg v t1).all_low ≡ true
      → (assess cfg v t2).all_low ≡ true
      → cfg.down_dwell_ns ≤ℤ t2 -ℤ t1
      → evaluate cfg t2 (evaluate cfg t1 v) ≡ start_probing (record v { good_since = t1 })
  evaluate-evaluate cfg v t1 t2 e z nz a1 a2 h =
      let spell : VenueState = record v { good_since = t1 } in
      let first =
        evaluate-eq-move cfg t1 v HealthState.down e
        ∙ spell_starts cfg (assess cfg v t1) t1 v a1 (ap (λ (q : ℤ). eqb_ℤ q (pos 0)) z) in
      let still = ap (λ (c : Conditions). c.all_low) (assess-good_since cfg v t1 t2) ∙ a2 in
      ap (evaluate cfg t2) first
      ∙ evaluate-eq-move cfg t2 spell HealthState.down e
      ∙ spell_lasts cfg (assess cfg spell t2) t2 spell still nz
          (≤→leb_ℤ cfg.down_dwell_ns (t2 -ℤ t1) h)

  -- A healthy or probing venue, by how many successful probes it still needs.
  abbrev OnTheWay : HealthConfig W → ℤ → VenueState → Type 0
  OnTheWay cfg left v =
      (v.state ≡ HealthState.healthy)
      ⊎ ((v.state ≡ HealthState.probing) × (cfg.probe_required ≤ℤ v.probe_success +ℤ left))

  ack_healthy :
      (cfg : HealthConfig W) (c : Conditions) (now : ℤ) (v : VenueState)
      → c.any_high ≡ false
      → (move cfg c now HealthState.healthy v).state ≡ v.state
  unfolding move
  ack_healthy cfg c now v h = rw h refl

  -- After an evaluation, at least one probe is missing if the venue is not healthy.
  abbrev Evaluated : HealthConfig W → ℤ → VenueState → Type 0
  Evaluated cfg left v =
      OnTheWay cfg left v
      × ((v.state ≡ HealthState.healthy) ⊎ (leb_ℤ cfg.probe_required v.probe_success ≡ false))

  ack_probing :
      (cfg : HealthConfig W) (c : Conditions) (now left : ℤ) (v : VenueState)
      → c.any_high ≡ false
      → v.state ≡ HealthState.probing
      → cfg.probe_required ≤ℤ v.probe_success +ℤ left
      → Evaluated cfg left (move cfg c now HealthState.probing v)
  unfolding move
  ack_probing cfg c now left v h e k =
      elim (Bool-cases (leb_ℤ cfg.probe_required v.probe_success)) [
        | inl done ↦ rw (h, done) (inl refl, inl refl)
        | inr more ↦ rw (h, more) (inr (e, k), inr more)
      ]

  note_probing :
      (cfg : HealthConfig W) (now lat : ℤ) (v : VenueState)
      → v.state ≡ HealthState.probing
      → lat ≤ℤ cfg.latency_high_ns
      → (note cfg now (HealthEvent.ack lat) v).probe_success ≡ v.probe_success +ℤ pos 1
  unfolding note
  note_probing cfg now lat v e h =
      let counts : (is_probing v.state && leb_ℤ lat cfg.latency_high_ns) ≡ true =
        ap (λ (s : HealthState). is_probing s && leb_ℤ lat cfg.latency_high_ns) e
        ∙ ≤→leb_ℤ lat cfg.latency_high_ns h in
      ap (λ (b : Bool). if b then v.probe_success +ℤ pos 1 else v.probe_success) counts

  note_state :
      (cfg : HealthConfig W) (now lat : ℤ) (v : VenueState)
      → (note cfg now (HealthEvent.ack lat) v).state ≡ v.state
  unfolding note
  note_state cfg now lat v = refl

  ack_step :
      (cfg : HealthConfig W) (now lat left : ℤ) (v : VenueState)
      → lat ≤ℤ cfg.latency_high_ns
      → (assess cfg (note cfg now (HealthEvent.ack lat) v) now).any_high ≡ false
      → OnTheWay cfg (pos 1 +ℤ left) v
      → Evaluated cfg left (handle cfg now (HealthEvent.ack lat) v)
  unfolding handle
  ack_step cfg now lat left v h low (inl e) =
      let v' = note cfg now (HealthEvent.ack lat) v in
      let fine =
        ap (λ (u : VenueState). u.state)
          (evaluate-eq-move cfg now v' HealthState.healthy (note_state cfg now lat v ∙ e))
        ∙ ack_healthy cfg (assess cfg v' now) now v' low
        ∙ note_state cfg now lat v
        ∙ e in
      (inl fine, inl fine)
  ack_step cfg now lat left v h low (inr (e, k)) =
      let v' = note cfg now (HealthEvent.ack lat) v in
      let probing = note_state cfg now lat v ∙ e in
      rw (evaluate-eq-move cfg now v' HealthState.probing probing) (
        ack_probing cfg (assess cfg v' now) now left v' low probing (
          one_more cfg.probe_required v.probe_success v'.probe_success left k
            (note_probing cfg now lat v e h)))

  Evaluated-healthy :
      (cfg : HealthConfig W) (v : VenueState)
      → Evaluated cfg (pos 0) v
      → v.state ≡ HealthState.healthy
  Evaluated-healthy cfg v (inl e, _) = e
  Evaluated-healthy cfg v (inr (e, k), inl f) = f
  Evaluated-healthy cfg v (inr (e, k), inr more) =
      let h = none_missing cfg.probe_required v.probe_success k in cc

  handle_all-healthy :
      (cfg : HealthConfig W) (now lat : ℤ) (rest : List (ℤ × ℤ)) (v : VenueState)
      → AcksAreGood cfg ((now, lat) ∷ rest) v
      → OnTheWay cfg (pos 1 +ℤ pos (length rest)) v
      → (handle_all cfg (acks ((now, lat) ∷ rest)) v).state ≡ HealthState.healthy
  handle_all-healthy cfg now lat [] v (h, low, _) w =
      Evaluated-healthy cfg (handle cfg now (HealthEvent.ack lat) v)
        (ack_step cfg now lat (pos 0) v h low w)
  handle_all-healthy cfg now lat ((now', lat') ∷ rest) v (h, low, good) w =
      handle_all-healthy cfg now' lat' rest (handle cfg now (HealthEvent.ack lat) v) good (
        subst (λ (q : ℤ). OnTheWay cfg q (handle cfg now (HealthEvent.ack lat) v))
          (pos-suc (length rest)) (ack_step cfg now lat (pos (suc (length rest))) v h low w).0)

  -- A venue that is down comes back: two evaluations in a good spell, one at its start (a time
  -- other than 0) and one at least the dwell later, let it probe; and acknowledgements below the
  -- latency threshold, at least one and as many as are required, after none of which a signal is
  -- high, make it healthy.
  pub down_recovers :
      (cfg : HealthConfig W) (v : VenueState) (t1 t2 now lat : ℤ) (rest : List (ℤ × ℤ))
      → v.state ≡ HealthState.down
      → v.good_since ≡ pos 0
      → eqb_ℤ t1 (pos 0) ≡ false
      → (assess cfg v t1).all_low ≡ true
      → (assess cfg v t2).all_low ≡ true
      → cfg.down_dwell_ns ≤ℤ t2 -ℤ t1
      → cfg.probe_required ≤ℤ pos (length ((now, lat) ∷ rest))
      → AcksAreGood cfg ((now, lat) ∷ rest) (evaluate cfg t2 (evaluate cfg t1 v))
      → (handle_all cfg (acks ((now, lat) ∷ rest)) (evaluate cfg t2 (evaluate cfg t1 v))).state
        ≡ HealthState.healthy
  down_recovers cfg v t1 t2 now lat rest e z nz a1 a2 h enough good =
      let two = evaluate-evaluate cfg v t1 t2 e z nz a1 a2 h in
      handle_all-healthy cfg now lat rest (evaluate cfg t2 (evaluate cfg t1 v)) good
        (rw two (inr (refl, enough_probes cfg.probe_required (length rest) enough)))
