-- ===== src/Health/Dwell.antt =====
-- How long a venue stays down (src/Health.cpp).
use delta_assignment.Common.{
  ◌≡◌, refl, true, false, List, [], ◌∷◌, ◌⊎◌, inl, inr, Bool-cases, arith,
}
use delta_assignment.Common.Int.{ℤ, pos, ◌-ℤ◌, ◌≤ℤ◌, ◌<ℤ◌, leb_ℤ, eqb_ℤ, int_laws}
use delta_assignment.Double.{Double}
use delta_assignment.Health.{
  HealthState, HealthConfig, Conditions, VenueState, HealthEvent, assess, move, evaluate, note,
  handle, is_down,
}

-- A venue that went down at `t0` or later: its good spell, if it has one, began no earlier.
abbrev pub DownSince : ℤ → VenueState → Type 0
DownSince t0 v = (is_down v.state ≡ true) × ((v.good_since ≡ pos 0) ⊎ (t0 ≤ℤ v.good_since))

-- Events with their times, each less than the dwell after `t0`.
abbrev pub AllWithin : ℤ → ℤ → List (ℤ × HealthEvent) → Type 0
AllWithin t0 dwell [] = Unit {0}
AllWithin t0 dwell ((now, e) ∷ es) = (t0 ≤ℤ now) × (now -ℤ t0 <ℤ dwell) × AllWithin t0 dwell es

leb_ℤ→≤ : (a b : ℤ) → leb_ℤ a b ≡ true → a ≤ℤ b
leb_ℤ→≤ a b h = ground arith

-- What began no earlier than `t0` has not lasted for the dwell.
too_soon :
    (t0 now good dwell : ℤ) → t0 ≤ℤ good → now -ℤ t0 <ℤ dwell → leb_ℤ dwell (now -ℤ good) ≡ false
too_soon t0 now good dwell h k = elim (Bool-cases (leb_ℤ dwell (now -ℤ good))) [
  | inl e ↦ absurd (omega (int_laws, leb_ℤ→≤ dwell (now -ℤ good) e))
  | inr e ↦ e
]

module _ {W : Type 0} ⦃d : Double W⦄ where
  abbrev pub handle_all : HealthConfig W → List (ℤ × HealthEvent) → VenueState → VenueState
  handle_all cfg [] v = v
  handle_all cfg ((now, e) ∷ es) v = handle_all cfg es (handle cfg now e v)

  move-DownSince :
      (cfg : HealthConfig W) (c : Conditions) (t0 now : ℤ) (s : HealthState) (v : VenueState)
      → v.state ≡ s
      → t0 ≤ℤ now
      → now -ℤ t0 <ℤ cfg.down_dwell_ns
      → DownSince t0 v
      → DownSince t0 (move cfg c now s v)
  unfolding move
  move-DownSince cfg c t0 now HealthState.healthy v e h k (g, b) = cc
  move-DownSince cfg c t0 now HealthState.degraded v e h k (g, b) = cc
  move-DownSince cfg c t0 now HealthState.probing v e h k (g, b) = cc
  move-DownSince cfg c t0 now HealthState.down v e h k (g, b) = elim (Bool-cases c.all_low) [
    | inr bad ↦ rw bad (g, inl refl)
    | inl good ↦ elim (Bool-cases (eqb_ℤ v.good_since (pos 0))) [
      | inl starts ↦ rw (good, starts) (g, inr h)
      | inr lasts ↦ elim b [
        | inl none_yet ↦ let clash = rw none_yet at lasts in cc
        | inr since ↦
            rw (good, lasts, too_soon t0 now v.good_since cfg.down_dwell_ns since k) (g, inr since)
      ]
    ]
  ]

  evaluate-DownSince :
      (cfg : HealthConfig W) (t0 now : ℤ) (v : VenueState)
      → t0 ≤ℤ now
      → now -ℤ t0 <ℤ cfg.down_dwell_ns
      → DownSince t0 v
      → DownSince t0 (evaluate cfg now v)
  unfolding evaluate
  evaluate-DownSince cfg t0 now v = move-DownSince cfg (assess cfg v now) t0 now v.state v refl

  note-DownSince :
      (cfg : HealthConfig W) (t0 now : ℤ) (e : HealthEvent) (v : VenueState)
      → DownSince t0 v
      → DownSince t0 (note cfg now e v)
  unfolding note
  note-DownSince cfg t0 now (HealthEvent.sent ts) v h = h
  note-DownSince cfg t0 now (HealthEvent.ack lat) v h = h
  note-DownSince cfg t0 now (HealthEvent.reject b) v h = h
  note-DownSince cfg t0 now HealthEvent.fill v h = h
  note-DownSince cfg t0 now HealthEvent.timeout v h = h
  note-DownSince cfg t0 now HealthEvent.disconnect v h = h
  note-DownSince cfg t0 now HealthEvent.reconnect v h = h
  note-DownSince cfg t0 now HealthEvent.ticked v h = h

  handle_all-DownSince :
      (cfg : HealthConfig W) (t0 : ℤ) (es : List (ℤ × HealthEvent)) (v : VenueState)
      → AllWithin t0 cfg.down_dwell_ns es
      → DownSince t0 v
      → DownSince t0 (handle_all cfg es v)
  unfolding handle
  handle_all-DownSince cfg t0 [] v w h = h
  handle_all-DownSince cfg t0 ((now, e) ∷ es) v (late, soon, w) h =
      handle_all-DownSince cfg t0 es (handle cfg now e v) w (
        evaluate-DownSince cfg t0 now (note cfg now e v) late soon
          (note-DownSince cfg t0 now e v h))

  -- A venue that is down and has no good spell behind it (as it is when it goes down) stays down
  -- through every sequence of events and ticks that ends before the dwell has passed.
  pub is_down-handle_all :
      (cfg : HealthConfig W) (t0 : ℤ) (es : List (ℤ × HealthEvent)) (v : VenueState)
      → is_down v.state ≡ true
      → v.good_since ≡ pos 0
      → AllWithin t0 cfg.down_dwell_ns es
      → is_down (handle_all cfg es v).state ≡ true
  is_down-handle_all cfg t0 es v g z w = (handle_all-DownSince cfg t0 es v w (g, inl z)).0
