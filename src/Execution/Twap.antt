-- ===== src/Execution/Twap.antt =====
-- TwapAlgo (include/oms/ExecutionAlgo.h, src/ExecutionAlgo.cpp). A round of the loop fires one slice, so
-- the number of slices not yet fired is fuel enough.
use delta_assignment.Common.{
  ℕ, zero, suc, ◌+◌, ◌-◌, max, ltb, leb, Bool, true, false, ◌&&◌, Option, if◌then◌else◌,
}
use delta_assignment.Common.Int.{ℤ, pos, pos_part, ◌+ℤ◌, ◌-ℤ◌, ◌*ℤ◌, leb_ℤ, ltb_ℤ, eqb_ℤ, quot}
use delta_assignment.Order.{OrderType}
use delta_assignment.OrderManager.Types.{Env}
use delta_assignment.OrderManager.State.{OrderManager}
use delta_assignment.Execution.{
  ceil_div, ParentOrder, AlgoConfig, AlgoBase, make_algo, send_child, cancel_children, inflight,
  remaining_quantity, cross_price,
}

pub record TwapAlgo (W : Type 0) : Type 0 where
  pub base : AlgoBase W
  pub slice_dur : ℤ
  pub n : ℕ
  pub slices_done : ℕ
  pub deadline_done : Bool

-- The size of a slice of what remains, with so many slices left.
unfoldable pub slice_size : ℤ → ℕ → ℤ
slice_size rem left =
    let size = if leb left 1 then rem else ceil_div rem (pos left) in
    if ltb_ℤ rem size then rem else size

module _ {W : Type 0} where
  abbrev pub make_twap : AlgoConfig W → TwapAlgo W
  make_twap cfg = record {
    base = make_algo cfg;
    slice_dur = pos 1;
    n = 1;
    slices_done = 0;
    deadline_done = false;
  }

  -- TwapAlgo::start
  unfoldable pub start : TwapAlgo W → ParentOrder → TwapAlgo W
  start t p =
      let n = max 1 (pos_part t.base.config.slices) in
      let span = if ltb_ℤ p.start p.end then p.end -ℤ p.start else pos 1 in
      let dur = quot span (pos n) in
      record t {
        base = record t.base { parent = p; stats = record t.base.stats { target_qty = p.qty } };
        n = n;
        slice_dur = if ltb_ℤ (pos 1) dur then dur else pos 1;
      }

  -- The loop's condition.
  unfoldable pub slice_due : ℤ → TwapAlgo W → Bool
  slice_due now t =
      ltb t.slices_done t.n && leb_ℤ (t.base.parent.start +ℤ (pos t.slices_done *ℤ t.slice_dur)) now

  -- The body of the loop.
  unfoldable pub fire_slice :
      Env → TwapAlgo W → Option OrderManager → TwapAlgo W × Option OrderManager
  fire_slice env t om =
      let rem = remaining_quantity t.base (inflight t.base) in
      let size = slice_size rem (t.n - t.slices_done) in
      let t' = record t { slices_done = t.slices_done + 1 } in
      if leb_ℤ size (pos 0)
      then (t', om)
      else (let sent = send_child env size t.base.parent.limit OrderType.limit t.base om in
          (record t' { base = sent.0 }, sent.1))

  unfoldable pub fire_slices :
      Env → ℤ → ℕ → TwapAlgo W → Option OrderManager → TwapAlgo W × Option OrderManager
  unfolding fire_slice
  fire_slices env now zero t om = (t, om)
  fire_slices env now (suc fuel) t om =
      let fired = fire_slice env t om in
      let rest = fire_slices env now fuel fired.0 fired.1 in
      if slice_due now t then rest else (t, om)

  -- The order of TwapAlgo::deadline_cross for what is left, if anything is.
  abbrev pub cross_residual :
      Env → TwapAlgo W → Option OrderManager → TwapAlgo W × Option OrderManager
  cross_residual env t om =
      let residual = t.base.parent.qty -ℤ t.base.filled -ℤ inflight t.base in
      if ltb_ℤ (pos 0) residual
      then (let sent = send_child env residual (cross_price t.base) OrderType.ioc t.base om in
          (record t { base = sent.0 }, sent.1))
      else (t, om)

  -- TwapAlgo::deadline_cross
  unfoldable pub deadline_cross :
      Env → TwapAlgo W → Option OrderManager → TwapAlgo W × Option OrderManager
  deadline_cross env t om =
      if t.deadline_done
      then (t, om)
      else cross_residual env (record t { deadline_done = true }) (cancel_children env t.base om)

  -- What the deadline leaves: done where nothing is in flight, and incomplete where not all is filled.
  abbrev pub finish : AlgoBase W → ℤ → AlgoBase W
  finish b inflight =
      if eqb_ℤ inflight (pos 0)
      then record b {
        stats =
            if ltb_ℤ b.filled b.parent.qty
            then record b.stats { incomplete_at_deadline = true }
            else b.stats;
        done = true;
      }
      else b

  abbrev pub mark_done : AlgoBase W → AlgoBase W
  mark_done b = if leb_ℤ b.parent.qty b.filled then record b { done = true } else b

  -- TwapAlgo::on_timer at the deadline
  abbrev pub at_deadline : Env → TwapAlgo W → Option OrderManager → TwapAlgo W × Option OrderManager
  at_deadline env t om =
      let crossed = deadline_cross env t om in
      (record crossed.0 { base = finish crossed.0.base (inflight crossed.0.base) }, crossed.1)

  -- TwapAlgo::on_timer before the deadline
  abbrev pub work_slices :
      Env → ℤ → TwapAlgo W → Option OrderManager → TwapAlgo W × Option OrderManager
  work_slices env now t om =
      let fired = fire_slices env now (t.n - t.slices_done) t om in
      (record fired.0 { base = mark_done fired.0.base }, fired.1)

  -- TwapAlgo::on_timer
  unfoldable pub on_timer :
      Env → ℤ → TwapAlgo W → Option OrderManager → TwapAlgo W × Option OrderManager
  unfolding deadline_cross fire_slices
  on_timer env now t om =
      if t.base.done
      then (t, om)
      else if leb_ℤ t.base.parent.end now
      then at_deadline env t om
      else work_slices env now t om
