-- ===== src/Execution/Keep.antt =====
-- What a timer of TwapAlgo leaves alone: its parent order, and what is filled (src/ExecutionAlgo.cpp).
use delta_assignment.Common.{
  ℕ, zero, suc, ◌-◌, true, Option, ◌≡◌, refl, ◌∙◌, if-both, if◌then◌else◌,
}
use delta_assignment.Common.Int.{ℤ, pos, ◌-ℤ◌, leb_ℤ, ltb_ℤ, eqb_ℤ}
use delta_assignment.Order.{OrderType}
use delta_assignment.OrderManager.Types.{Env}
use delta_assignment.OrderManager.State.{OrderManager}
use delta_assignment.Execution.{
  AlgoBase, cancel_children, inflight, remaining_quantity, cross_price,
}
use delta_assignment.Execution.Twap.{
  TwapAlgo, slice_due, slice_size, fire_slice, fire_slices, cross_residual, deadline_cross, finish,
  mark_done, at_deadline, work_slices, on_timer,
}
use delta_assignment.Execution.Committed.{send_child-frame}

module _ {W : Type 0} where
  abbrev pub Keeps : AlgoBase W → AlgoBase W → Type 0
  Keeps b c = (c.parent ≡ b.parent) × (c.filled ≡ b.filled)

  Keeps-trans : (a b c : AlgoBase W) → Keeps a b → Keeps b c → Keeps a c
  Keeps-trans a b c (p, f) (q, g) = (q ∙ p, g ∙ f)

  abbrev KeepsBase : AlgoBase W → TwapAlgo W × Option OrderManager → Type 0
  KeepsBase b r = Keeps b r.0.base

  fire_slice-Keeps :
      (env : Env) (t : TwapAlgo W) (om : Option OrderManager)
      → KeepsBase t.base (fire_slice env t om)
  unfolding fire_slice
  fire_slice-Keeps env t om =
      let size = slice_size (remaining_quantity t.base (inflight t.base)) (t.n - t.slices_done) in
      if-both (KeepsBase t.base) (leb_ℤ size (pos 0)) _ _ (λ e. (refl, refl))
        (λ e. send_child-frame env size t.base.parent.limit OrderType.limit t.base om)

  fire_slices-Keeps :
      (env : Env) (now : ℤ) (fuel : ℕ) (t : TwapAlgo W) (om : Option OrderManager)
      → KeepsBase t.base (fire_slices env now fuel t om)
  unfolding fire_slices
  fire_slices-Keeps env now zero t om = (refl, refl)
  fire_slices-Keeps env now (suc fuel) t om =
      let fired = fire_slice env t om in
      let rest = fire_slices env now fuel fired.0 fired.1 in
      if-both (KeepsBase t.base) (slice_due now t) rest (t, om)
        (λ e.
          Keeps-trans t.base fired.0.base rest.0.base (fire_slice-Keeps env t om)
            (fire_slices-Keeps env now fuel fired.0 fired.1))
        (λ e. (refl, refl))

  finish-Keeps : (b : AlgoBase W) (q : ℤ) → Keeps b (finish b q)
  finish-Keeps b q = if-both (Keeps b) (eqb_ℤ q (pos 0)) _ b (λ e. (refl, refl)) (λ e. (refl, refl))

  mark_done-Keeps : (b : AlgoBase W) → Keeps b (mark_done b)
  mark_done-Keeps b =
      if-both (Keeps b) (leb_ℤ b.parent.qty b.filled) _ b (λ e. (refl, refl)) (λ e. (refl, refl))

  cross_residual-Keeps :
      (env : Env) (t : TwapAlgo W) (om : Option OrderManager)
      → KeepsBase t.base (cross_residual env t om)
  cross_residual-Keeps env t om =
      let residual = t.base.parent.qty -ℤ t.base.filled -ℤ inflight t.base in
      if-both (KeepsBase t.base) (ltb_ℤ (pos 0) residual) _ _
        (λ e. send_child-frame env residual (cross_price t.base) OrderType.ioc t.base om)
        (λ e. (refl, refl))

  deadline_cross-Keeps :
      (env : Env) (t : TwapAlgo W) (om : Option OrderManager)
      → KeepsBase t.base (deadline_cross env t om)
  unfolding deadline_cross
  deadline_cross-Keeps env t om =
      if-both (KeepsBase t.base) t.deadline_done _ _ (λ e. (refl, refl))
        (λ e.
          cross_residual-Keeps env (record t { deadline_done = true })
            (cancel_children env t.base om))

  pub on_timer-Keeps :
      (env : Env) (now : ℤ) (t : TwapAlgo W) (om : Option OrderManager)
      → Keeps t.base (on_timer env now t om).0.base
  unfolding on_timer
  on_timer-Keeps env now t om =
      let crossed = (deadline_cross env t om).0.base in
      let fired = (fire_slices env now (t.n - t.slices_done) t om).0.base in
      if-both (KeepsBase t.base) t.base.done (t, om)
        (if leb_ℤ t.base.parent.end now then at_deadline env t om else work_slices env now t om)
        (λ e. (refl, refl))
        (λ e.
          if-both (KeepsBase t.base) (leb_ℤ t.base.parent.end now) (at_deadline env t om)
            (work_slices env now t om)
            (λ f.
              Keeps-trans t.base crossed (finish crossed (inflight crossed))
                (deadline_cross-Keeps env t om) (finish-Keeps crossed (inflight crossed)))
            (λ f.
              Keeps-trans t.base fired (mark_done fired)
                (fire_slices-Keeps env now (t.n - t.slices_done) t om) (mark_done-Keeps fired)))
