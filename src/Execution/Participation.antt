-- ===== src/Execution/Participation.antt =====
-- PovAlgo within its target (src/ExecutionAlgo.cpp): before the deadline it is, and at the deadline what
-- is in flight is sent once more.
use delta_assignment.Common.{
  ◌==◌, Bool, true, false, ◌||◌, Option, none, some, ◌≡◌, refl, sym, ap, subst, ◌∙◌, ◌⊎◌, inl, inr,
  if-both, if◌then◌else◌, arith,
}
use delta_assignment.Common.Int.{ℤ, pos, ◌+ℤ◌, ◌-ℤ◌, ◌≤ℤ◌, ◌<ℤ◌, leb_ℤ, ltb_ℤ, int_laws, +ℤ-zero}
use delta_assignment.Common.Dict.{lookup, keys}
use delta_assignment.Double.{Double}
use delta_assignment.Order.{OrderType}
use delta_assignment.OrderManager.Types.{Env}
use delta_assignment.OrderManager.State.{OrderManager}
use delta_assignment.OrderManager.Submit.{submit}
use delta_assignment.Execution.{
  cancel_ids, child_request, inflight, remaining_quantity, cross_price,
}
use delta_assignment.Execution.Twap.{TwapAlgo, make_twap, start, on_timer}
use delta_assignment.Execution.Sums.{AllNonneg, leb_ℤ→gt, ltb_ℤ→lt, ltb_ℤ→ge}
use delta_assignment.Execution.Committed.{
  committed, WithinTarget, send_child-WithinTarget, send_child-committed, remaining_quantity-room,
}
use delta_assignment.Execution.Schedule.{on_timer-WithinTarget}
use delta_assignment.Execution.Keep.{on_timer-Keeps}
use delta_assignment.Execution.Pov.{
  PovAlgo, held, open_quantity, pov_inflight, residual_config, residual_order, hold,
  degrade_to_twap, cancel_held, cross_unfilled, cross_held, pov_deadline_cross, pov_follow, share,
  volume_of, observe, idle, falls_behind, degrade_and_tick, participate, pov_stage, pov_work,
  pov_at_deadline, pov_on_timer,
}

nothing_held :
    (filled own others target : ℤ)
    → others ≡ pos 0
    → filled +ℤ own ≤ℤ target
    → filled +ℤ (own +ℤ others) ≤ℤ target
nothing_held filled own others target e h = rw e (omega int_laws)

some_held :
    (filled own others target t_filled t_open t_target : ℤ)
    → others ≡ t_open
    → t_filled +ℤ t_open ≤ℤ t_target
    → filled +ℤ own +ℤ (t_target -ℤ t_filled) ≤ℤ target
    → filled +ℤ (own +ℤ others) ≤ℤ target
some_held filled own others target t_filled t_open t_target e h k = rw e (omega int_laws)

held_again {ℓ} :
    {A : Type ℓ} (b : Bool) (o : Option A) (t u : A)
    → (if b then o else none) ≡ some t
    → (if b then some u else none) ≡ some u
held_again true o t u h = refl
held_again false o t u h = cc

none_left : (q : ℤ) → pos 0 <ℤ q → ltb_ℤ (pos 0) q ≡ false → ⊥
none_left q h e = ground arith

twice : (target filled own : ℤ) → filled +ℤ own +ℤ (target -ℤ filled) ≡ target +ℤ own
twice target filled own = omega int_laws

residual_room :
    (target filled own : ℤ)
    → filled +ℤ own ≤ℤ target
    → let r = target -ℤ filled -ℤ (own +ℤ pos 0) in
      filled +ℤ own +ℤ ((if ltb_ℤ (pos 0) r then r else pos 0) -ℤ pos 0) ≤ℤ target
residual_room target filled own h =
    let r = target -ℤ filled -ℤ (own +ℤ pos 0) in
    if-both (λ (q : ℤ). filled +ℤ own +ℤ (q -ℤ pos 0) ≤ℤ target) (ltb_ℤ (pos 0) r) r (pos 0)
      (λ e. omega int_laws) (λ e. omega int_laws)

residual_nonneg :
    (target filled own : ℤ)
    → let r = target -ℤ filled -ℤ own in pos 0 +ℤ pos 0 ≤ℤ (if ltb_ℤ (pos 0) r then r else pos 0)
residual_nonneg target filled own =
    let r = target -ℤ filled -ℤ own in
    if-both (λ (q : ℤ). pos 0 +ℤ pos 0 ≤ℤ q) (ltb_ℤ (pos 0) r) r (pos 0)
      (λ e. let k = ltb_ℤ→lt (pos 0) r e in omega int_laws) (λ e. omega int_laws)

module _ {W : Type 0} where
  -- What the held TWAP may still commit is within the target as well.
  abbrev pub HoldsWithin : PovAlgo W → TwapAlgo W → Type 0
  HoldsWithin p t =
      AllNonneg p.base.children
      × WithinTarget t.base
      × (p.base.filled +ℤ inflight p.base +ℤ (t.base.parent.qty -ℤ t.base.filled)
          ≤ℤ p.base.parent.qty)

  abbrev pub PovWithin : PovAlgo W → Type 0
  PovWithin p =
      ((held p ≡ none) × WithinTarget p.base)
      ⊎ ((t : TwapAlgo W) × (held p ≡ some t) × HoldsWithin p t)

  -- The whole commitment, with the TWAP's children.
  abbrev pub pov_committed : PovAlgo W → ℤ
  pov_committed p = p.base.filled +ℤ pov_inflight p

  pub PovWithin-committed : (p : PovAlgo W) → PovWithin p → pov_committed p ≤ℤ p.base.parent.qty
  PovWithin-committed p (inl (e, w)) =
      nothing_held p.base.filled (inflight p.base) (open_quantity (held p)) p.base.parent.qty
        (ap open_quantity e) w.1
  PovWithin-committed p (inr (t, e, (_, w, k))) =
      some_held p.base.filled (inflight p.base) (open_quantity (held p)) p.base.parent.qty
        t.base.filled (inflight t.base) t.base.parent.qty (ap open_quantity e) w.1 k

  -- A timer of the held TWAP.
  follow-HoldsWithin :
      (env : Env) (now : ℤ) (t : TwapAlgo W) (p : PovAlgo W) (om : Option OrderManager)
      → HoldsWithin p t
      → HoldsWithin p (on_timer env now t om).0
  follow-HoldsWithin env now t p om (a, w, k) =
      let (f, g) = on_timer-Keeps env now t om in
      (a, on_timer-WithinTarget env now t om w, rw (f, g) k)

  -- The TWAP that a POV degrades to, which works what remained.
  abbrev residual_twap : ℤ → PovAlgo W → TwapAlgo W
  residual_twap now p =
      let t = make_twap (residual_config p.base.config) in start t (residual_order (hold t p) now)

  residual_twap-HoldsWithin :
      (now : ℤ) (p : PovAlgo W)
      → WithinTarget p.base
      → HoldsWithin (degrade_to_twap now p) (residual_twap now p)
  unfolding degrade_to_twap start remaining_quantity
  residual_twap-HoldsWithin now p w =
      let p' = hold (make_twap (residual_config p.base.config)) p in
      (
        w.0,
        (tt, residual_nonneg p.base.parent.qty p.base.filled (pov_inflight p')),
        residual_room p.base.parent.qty p.base.filled (inflight p.base) w.1,
      )

  -- At the deadline a POV without a TWAP crosses all that is not filled, whatever is in flight:
  -- where the order manager takes the crossing order under a new id, what it has filled and has
  -- in flight is then the target and, once more, what was in flight.
  pub pov_deadline_cross-committed :
      (env : Env) (now : ℤ) (p : PovAlgo W) (om : OrderManager)
      → p.deadline_done ≡ false
      → held p ≡ none
      → let residual = p.base.parent.qty -ℤ p.base.filled in
        let om' = cancel_ids env (keys p.base.children) om in
        let id =
          (submit env om' (child_request p.base residual (cross_price p.base) OrderType.ioc)).1 in
        pos 0 <ℤ residual
        → (id == 0) ≡ false
        → lookup id p.base.children ≡ none
        → committed (pov_deadline_cross env now p (some om)).0.base
          ≡ p.base.parent.qty +ℤ inflight p.base
  unfolding pov_deadline_cross
  pov_deadline_cross-committed env now p om first e left new_id fresh =
      let b = p.base in
      let residual = b.parent.qty -ℤ b.filled in
      let om' = cancel_ids env (keys b.children) om in
      let Doubles : PovAlgo W × Option OrderManager → Type 0 =
        λ r. committed r.0.base ≡ b.parent.qty +ℤ inflight b in
      let p' = record p { deadline_done = true } in
      let crossed : Doubles (cross_unfilled env p' (some om')) =
        if-both Doubles (ltb_ℤ (pos 0) residual) _ _
          (λ f.
            send_child-committed env residual (cross_price b) OrderType.ioc b om' left new_id fresh
            ∙ twice b.parent.qty b.filled (inflight b))
          (λ f. absurd (none_left residual left f)) in
      let held_none : Doubles (cross_held env now (held p) p' (some om)) =
        subst (λ (h : Option (TwapAlgo W)). Doubles (cross_held env now h p' (some om))) (sym e)
          (subst
            (λ (h : Option (TwapAlgo W)).
              Doubles (cross_unfilled env p' (cancel_held env h (some om'))))
            (sym e) crossed) in
      if-both Doubles p.deadline_done _ _ (λ f. absurd cc) (λ f. held_none)

module _ {W : Type 0} ⦃d : Double W⦄ where
  abbrev Fits : PovAlgo W × Option OrderManager → Type 0
  Fits r = PovWithin r.0

  degrade_and_tick-PovWithin :
      (env : Env) (now : ℤ) (p : PovAlgo W) (om : Option OrderManager)
      → WithinTarget p.base
      → Fits (degrade_and_tick env now p om)
  unfolding degrade_to_twap
  degrade_and_tick-PovWithin env now p om w =
      let t = residual_twap now p in
      inr (
        (on_timer env now t om).0,
        refl,
        follow-HoldsWithin env now t (degrade_to_twap now p) om (residual_twap-HoldsWithin now p w),
      )

  participate-PovWithin :
      (env : Env) (vol : ℤ) (p : PovAlgo W) (om : Option OrderManager)
      → held p ≡ none
      → WithinTarget p.base
      → Fits (participate env vol p om)
  participate-PovWithin env vol p om e w =
      let wanted = share p.base.config vol in
      let rem = remaining_quantity p.base (pov_inflight p) in
      let child = if ltb_ℤ rem wanted then rem else wanted in
      let same : pov_inflight p ≡ inflight p.base =
        ap (λ (t : Option (TwapAlgo W)). inflight p.base +ℤ open_quantity t) e
        ∙ +ℤ-zero (inflight p.base) in
      let capped : child ≤ℤ rem =
        if-both (λ (q : ℤ). q ≤ℤ rem) (ltb_ℤ rem wanted) rem wanted (λ f. omega arith)
          (ltb_ℤ→ge rem wanted) in
      if-both Fits (leb_ℤ child (pos 0)) _ _ (λ f. inl (e, w))
        (λ f. inl (
          e,
          send_child-WithinTarget env child p.base.parent.limit OrderType.limit p.base om
              (remaining_quantity-room p.base child (leb_ℤ→gt child (pos 0) f)
                (subst (λ (q : ℤ). child ≤ℤ remaining_quantity p.base q) same capped))
              w,
        ))

  pov_stage-PovWithin :
      (env : Env) (now vol : ℤ) (p : PovAlgo W) (om : Option OrderManager)
      → held p ≡ none
      → WithinTarget p.base
      → Fits (pov_stage env now vol p om)
  pov_stage-PovWithin env now vol p om e w =
      if-both Fits (ltb_ℤ vol p.base.config.min_volume_floor || leb_ℤ vol (pos 0)) (idle p, om)
        (if falls_behind p then degrade_and_tick env now p om else participate env vol p om)
        (λ f. inl (e, w))
        (λ f.
          if-both Fits (falls_behind p) (degrade_and_tick env now p om) (participate env vol p om)
            (λ g. degrade_and_tick-PovWithin env now p om w)
            (λ g. participate-PovWithin env vol p om e w))

  pov_follow-PovWithin :
      (env : Env) (now : ℤ) (t : TwapAlgo W) (p : PovAlgo W) (om : Option OrderManager)
      → held p ≡ some t
      → HoldsWithin p t
      → Fits (pov_follow env now t p om)
  pov_follow-PovWithin env now t p om e h =
      let ticked = (on_timer env now t om).0 in
      let k = follow-HoldsWithin env now t p om h in
      if-both PovWithin ticked.base.done _ _
        (λ f. inr (ticked, held_again p.degraded p.twap t ticked e, k))
        (λ f. inr (ticked, held_again p.degraded p.twap t ticked e, k))

  pov_work-PovWithin :
      (env : Env) (now : ℤ) (p : PovAlgo W) (om : Option OrderManager)
      → PovWithin p
      → Fits (pov_work env now (held p) p om)
  pov_work-PovWithin env now p om (inl (e, w)) =
      subst (λ (h : Option (TwapAlgo W)). Fits (pov_work env now h p om)) (sym e)
        (pov_stage-PovWithin env now (volume_of p) (observe now (volume_of p) p) om e w)
  pov_work-PovWithin env now p om (inr (t, e, h)) =
      subst (λ (h : Option (TwapAlgo W)). Fits (pov_work env now h p om)) (sym e)
        (pov_follow-PovWithin env now t p om e h)

  -- Before the deadline, a POV that is within its target stays so at every timer: it keeps idle,
  -- it takes part in the volume, it degrades to a TWAP over what remained, or it follows the TWAP
  -- that it holds.
  pub pov_on_timer-PovWithin :
      (env : Env) (now : ℤ) (p : PovAlgo W) (om : Option OrderManager)
      → leb_ℤ p.base.parent.end now ≡ false
      → PovWithin p
      → PovWithin (pov_on_timer env now p om).0
  unfolding pov_on_timer
  pov_on_timer-PovWithin env now p om early w =
      if-both Fits p.base.done (p, om)
        (if leb_ℤ p.base.parent.end now
          then pov_at_deadline env now p om
          else pov_work env now (held p) p om)
        (λ e. w)
        (λ e.
          if-both Fits (leb_ℤ p.base.parent.end now) (pov_at_deadline env now p om)
            (pov_work env now (held p) p om) (λ f. absurd cc)
            (λ f. pov_work-PovWithin env now p om w))
