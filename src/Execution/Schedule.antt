-- ===== src/Execution/Schedule.antt =====
-- The slices of TwapAlgo (src/ExecutionAlgo.cpp): they end, and they stay within the target.
use delta_assignment.Common.{
  ℕ, zero, suc, ◌+◌, ◌-◌, ◌≤◌, ◌<◌, ltb, leb, true, false, Option, ◌≡◌, refl, inl, inr, Bool-cases,
  if-both, if◌then◌else◌, arith,
}
use delta_assignment.Common.Int.{ℤ, pos, ◌+ℤ◌, ◌-ℤ◌, ◌≤ℤ◌, leb_ℤ, ltb_ℤ, eqb_ℤ, int_laws}
use delta_assignment.Order.{OrderType}
use delta_assignment.OrderManager.Types.{Env}
use delta_assignment.OrderManager.State.{OrderManager}
use delta_assignment.Execution.{
  ceil_div, AlgoBase, cancel_children, inflight, remaining_quantity, cross_price,
}
use delta_assignment.Execution.Twap.{
  TwapAlgo, slice_due, slice_size, fire_slice, fire_slices, cross_residual, deadline_cross, finish,
  mark_done, at_deadline, work_slices, on_timer,
}
use delta_assignment.Execution.Sums.{ltb_ℤ→ge, leb_ℤ→gt}
use delta_assignment.Execution.Committed.{
  WithinTarget, send_child-WithinTarget, send_child-frame, remaining_quantity-room,
}

pub slice_size_le : (rem : ℤ) (left : ℕ) → slice_size rem left ≤ℤ rem
unfolding slice_size
slice_size_le rem left =
    let size = if leb left 1 then rem else ceil_div rem (pos left) in
    elim (Bool-cases (ltb_ℤ rem size)) [
      | inl e ↦ rw e (omega arith)
      | inr e ↦ rw e (ltb_ℤ→ge rem size e)
    ]

residual_fits :
    (target filled open_qty : ℤ) → filled +ℤ open_qty +ℤ (target -ℤ filled -ℤ open_qty) ≤ℤ target
residual_fits target filled open_qty = omega int_laws

one_less : (n done : ℕ) → done < n → suc (n - suc done) ≡ n - done
one_less n done h = omega arith

module _ {W : Type 0} where
  -- A slice leaves the schedule as it is, and is counted.
  pub fire_slice-frame :
      (env : Env) (t : TwapAlgo W) (om : Option OrderManager)
      → let t' = (fire_slice env t om).0 in
        (t'.n ≡ t.n)
        × (t'.slices_done ≡ t.slices_done + 1)
        × (t'.slice_dur ≡ t.slice_dur)
        × (t'.base.parent ≡ t.base.parent)
  unfolding fire_slice
  fire_slice-frame env t om =
      let rem = remaining_quantity t.base (inflight t.base) in
      let size = slice_size rem (t.n - t.slices_done) in
      elim (Bool-cases (leb_ℤ size (pos 0))) [
        | inl e ↦ rw e (refl, refl, refl, refl)
        | inr e ↦ rw e (
          refl,
          refl,
          refl,
          (send_child-frame env size t.base.parent.limit OrderType.limit t.base om).0,
        )
      ]

  -- An algorithm within its target, with whatever order manager.
  abbrev Within : TwapAlgo W × Option OrderManager → Type 0
  Within r = WithinTarget r.0.base

  fire_slice-WithinTarget :
      (env : Env) (t : TwapAlgo W) (om : Option OrderManager)
      → WithinTarget t.base
      → Within (fire_slice env t om)
  unfolding fire_slice
  fire_slice-WithinTarget env t om w =
      let rem = remaining_quantity t.base (inflight t.base) in
      let size = slice_size rem (t.n - t.slices_done) in
      if-both Within (leb_ℤ size (pos 0)) _ _ (λ e. w)
        (λ e.
          send_child-WithinTarget env size t.base.parent.limit OrderType.limit t.base om
            (remaining_quantity-room t.base size (leb_ℤ→gt size (pos 0) e)
              (slice_size_le rem (t.n - t.slices_done)))
            w)

  fire_slices-WithinTarget :
      (env : Env) (now : ℤ) (fuel : ℕ) (t : TwapAlgo W) (om : Option OrderManager)
      → WithinTarget t.base
      → Within (fire_slices env now fuel t om)
  unfolding fire_slices
  fire_slices-WithinTarget env now zero t om w = w
  fire_slices-WithinTarget env now (suc fuel) t om w =
      let fired = fire_slice env t om in
      if-both Within (slice_due now t) (fire_slices env now fuel fired.0 fired.1) (t, om)
        (λ e.
          fire_slices-WithinTarget env now fuel fired.0 fired.1
            (fire_slice-WithinTarget env t om w))
        (λ e. w)

  due_in_schedule : (now : ℤ) (t : TwapAlgo W) → slice_due now t ≡ true → t.slices_done < t.n
  unfolding slice_due
  due_in_schedule now t h = elim (Bool-cases (ltb t.slices_done t.n)) [
    | inl e ↦ ground arith
    | inr e ↦ absurd (let k = rw e at h in cc)
  ]

  left_after :
      (env : Env) (fuel : ℕ) (t : TwapAlgo W) (om : Option OrderManager)
      → t.n - t.slices_done ≤ suc fuel
      → let t' = (fire_slice env t om).0 in t'.n - t'.slices_done ≤ fuel
  left_after env fuel t om h =
      let (f, g, _, _) = fire_slice-frame env t om in rw (f, g) (omega arith)

  -- The loop of the timer ends: after as many rounds as slices were left, no slice is due.
  pub fire_slices-stops :
      (env : Env) (now : ℤ) (fuel : ℕ) (t : TwapAlgo W) (om : Option OrderManager)
      → t.n - t.slices_done ≤ fuel
      → slice_due now (fire_slices env now fuel t om).0 ≡ false
  unfolding fire_slices
  fire_slices-stops env now zero t om h = elim (Bool-cases (slice_due now t)) [
    | inl e ↦ absurd (let k = due_in_schedule now t e in omega arith)
    | inr e ↦ e
  ]
  fire_slices-stops env now (suc fuel) t om h =
      let fired = fire_slice env t om in
      if-both (λ (r : TwapAlgo W × Option OrderManager). slice_due now r.0 ≡ false)
        (slice_due now t) (fire_slices env now fuel fired.0 fired.1) (t, om)
        (λ e. fire_slices-stops env now fuel fired.0 fired.1 (left_after env fuel t om h)) (λ e. e)

  finish-WithinTarget : (b : AlgoBase W) (q : ℤ) → WithinTarget b → WithinTarget (finish b q)
  finish-WithinTarget b q w = if-both WithinTarget (eqb_ℤ q (pos 0)) _ b (λ e. w) (λ e. w)

  mark_done-WithinTarget : (b : AlgoBase W) → WithinTarget b → WithinTarget (mark_done b)
  mark_done-WithinTarget b w =
      if-both WithinTarget (leb_ℤ b.parent.qty b.filled) _ b (λ e. w) (λ e. w)

  cross_residual-WithinTarget :
      (env : Env) (t : TwapAlgo W) (om : Option OrderManager)
      → WithinTarget t.base
      → Within (cross_residual env t om)
  cross_residual-WithinTarget env t om w =
      let residual = t.base.parent.qty -ℤ t.base.filled -ℤ inflight t.base in
      if-both Within (ltb_ℤ (pos 0) residual) _ _
        (λ e.
          send_child-WithinTarget env residual (cross_price t.base) OrderType.ioc t.base om
            (residual_fits t.base.parent.qty t.base.filled (inflight t.base)) w)
        (λ e. w)

  deadline_cross-WithinTarget :
      (env : Env) (t : TwapAlgo W) (om : Option OrderManager)
      → WithinTarget t.base
      → Within (deadline_cross env t om)
  unfolding deadline_cross
  deadline_cross-WithinTarget env t om w =
      if-both Within t.deadline_done _ _ (λ e. w)
        (λ e.
          cross_residual-WithinTarget env (record t { deadline_done = true })
            (cancel_children env t.base om) w)

  -- A TWAP never sends more than its parent order asks for: where what it has filled and has in flight is
  -- within the target, so it is after every timer, before the deadline and from it on.
  pub on_timer-WithinTarget :
      (env : Env) (now : ℤ) (t : TwapAlgo W) (om : Option OrderManager)
      → WithinTarget t.base
      → WithinTarget (on_timer env now t om).0.base
  unfolding on_timer
  on_timer-WithinTarget env now t om w =
      let crossed = (deadline_cross env t om).0.base in
      let fired = (fire_slices env now (t.n - t.slices_done) t om).0.base in
      if-both Within t.base.done (t, om)
        (if leb_ℤ t.base.parent.end now then at_deadline env t om else work_slices env now t om)
        (λ e. w)
        (λ e.
          if-both Within (leb_ℤ t.base.parent.end now) (at_deadline env t om)
            (work_slices env now t om)
            (λ f.
              finish-WithinTarget crossed (inflight crossed)
                (deadline_cross-WithinTarget env t om w))
            (λ f.
              mark_done-WithinTarget fired
                (fire_slices-WithinTarget env now (t.n - t.slices_done) t om w)))
