-- ===== src/Execution/Run.antt =====
-- A TWAP over its whole life, and its last slice (src/ExecutionAlgo.cpp).
use delta_assignment.Common.{
  ◌+◌, ◌-◌, ◌==◌, false, Option, none, some, ◌≡◌, refl, sym, ap, subst, ◌∙◌, if-both, if◌then◌else◌,
}
use delta_assignment.Common.Int.{ℤ, pos, ◌+ℤ◌, ◌-ℤ◌, ◌≤ℤ◌, ◌<ℤ◌, leb_ℤ, ltb_ℤ, int_laws}
use delta_assignment.Common.Dict.{lookup}
use delta_assignment.Order.{Order, OrderType, remaining}
use delta_assignment.OrderManager.Types.{Env}
use delta_assignment.OrderManager.State.{OrderManager}
use delta_assignment.OrderManager.Submit.{submit}
use delta_assignment.Execution.{
  ParentOrder, AlgoConfig, child_request, send_child, inflight, remaining_quantity, on_fill,
  forget_child,
}
use delta_assignment.Execution.Twap.{TwapAlgo, make_twap, start, slice_size, fire_slice, on_timer}
use delta_assignment.Execution.Sums.{not_both}
use delta_assignment.Execution.Committed.{
  committed, WithinTarget, on_fill-WithinTarget, forget_child-WithinTarget, send_child-committed,
  remaining_quantity-exact,
}
use delta_assignment.Execution.Schedule.{on_timer-WithinTarget}

started_within : (qty : ℤ) → pos 0 ≤ℤ qty → pos 0 +ℤ pos 0 ≤ℤ qty
started_within qty h = omega int_laws

last_size : (rem : ℤ) → slice_size rem 1 ≡ rem
unfolding slice_size
last_size rem = if-both (λ (q : ℤ). q ≡ rem) (ltb_ℤ rem rem) rem rem (λ e. refl) (λ e. refl)

module _ {W : Type 0} where
  -- What happens to a TWAP: a timer, a fill of a child in flight by at most what it had left, or a child's end.
  pub data Step : TwapAlgo W → TwapAlgo W → Type 0 where
    timer :
        {t : TwapAlgo W} (env : Env) (now : ℤ) (om : Option OrderManager)
        → Step t (on_timer env now t om).0
    fill :
        {t : TwapAlgo W} (o : Order) (qty r : ℤ)
        → lookup o.internal_id t.base.children ≡ some r
        → qty ≤ℤ r
        → remaining o ≡ r -ℤ qty
        → Step t (record t { base = on_fill t.base o qty })
    ends : {t : TwapAlgo W} (o : Order) → Step t (record t { base = forget_child t.base o })

  pub data Run : TwapAlgo W → TwapAlgo W → Type 0 where
    here : {t : TwapAlgo W} → Run t t
    next : {t u v : TwapAlgo W} → Run t u → Step u v → Run t v

  Step-WithinTarget : {t u : TwapAlgo W} → Step t u → WithinTarget t.base → WithinTarget u.base
  Step-WithinTarget (Step.timer {t = t} env now om) w = on_timer-WithinTarget env now t om w
  Step-WithinTarget (Step.fill {t = t} o qty r n h e) w =
      on_fill-WithinTarget t.base o qty r n h e w
  Step-WithinTarget (Step.ends {t = t} o) w = forget_child-WithinTarget t.base o w

  Run-WithinTarget : {t u : TwapAlgo W} → Run t u → WithinTarget t.base → WithinTarget u.base
  Run-WithinTarget Run.here w = w
  Run-WithinTarget (Run.next r s) w = Step-WithinTarget s (Run-WithinTarget r w)

  -- A TWAP never buys or sells more than its parent order asks for: from its start with a
  -- quantity that is not negative, after any timers, fills that their children had left, rejects
  -- and cancels, what it has filled and has in flight together is at most that quantity.
  pub start-WithinTarget :
      (cfg : AlgoConfig W) (p : ParentOrder) (t : TwapAlgo W)
      → pos 0 ≤ℤ p.qty
      → Run (start (make_twap cfg) p) t
      → WithinTarget t.base
  unfolding start
  start-WithinTarget cfg p t h r = Run-WithinTarget r (tt, started_within p.qty h)

  -- The last slice of a schedule, if anything remains and the order manager takes it under a new id,
  -- commits all of the target.
  pub last_slice-committed :
      (env : Env) (t : TwapAlgo W) (om : OrderManager)
      → t.n - t.slices_done ≡ 1
      → let rem = remaining_quantity t.base (inflight t.base) in
        let id = (submit env om (child_request t.base rem t.base.parent.limit OrderType.limit)).1 in
        pos 0 <ℤ rem
        → (id == 0) ≡ false
        → lookup id t.base.children ≡ none
        → committed (fire_slice env t (some om)).0.base ≡ t.base.parent.qty
  unfolding fire_slice
  last_slice-committed env t om one pos_rem new_id fresh =
      let b = t.base in
      let rem = remaining_quantity b (inflight b) in
      let t' = record t { slices_done = t.slices_done + 1 } in
      let Commits : TwapAlgo W × Option OrderManager → Type 0 =
        λ r. committed r.0.base ≡ b.parent.qty in
      let whole : slice_size rem (t.n - t.slices_done) ≡ rem =
        ap (slice_size rem) one ∙ last_size rem in
      subst
        (λ (q : ℤ). Commits (
          if leb_ℤ q (pos 0)
          then (t', some om)
          else (let sent = send_child env q b.parent.limit OrderType.limit b (some om) in
              (record t' { base = sent.0 }, sent.1))))
        (sym whole)
        (if-both Commits (leb_ℤ rem (pos 0)) _ _ (λ e. absurd (not_both rem pos_rem e))
          (λ e.
            send_child-committed env rem b.parent.limit OrderType.limit b om pos_rem new_id fresh
            ∙ remaining_quantity-exact b pos_rem))
