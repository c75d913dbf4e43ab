-- ===== src/Execution/Pov.antt =====
-- PovAlgo (include/oms/ExecutionAlgo.h, src/ExecutionAlgo.cpp), which holds a TWAP once it has degraded.
use delta_assignment.Common.{
  Bool, true, false, ◌&&◌, ◌||◌, Option, none, some, bump, is_some, if◌then◌else◌,
}
use delta_assignment.Common.Int.{ℤ, pos, ◌+ℤ◌, ◌-ℤ◌, leb_ℤ, ltb_ℤ}
use delta_assignment.Common.Dict.{lookup}
use delta_assignment.Double.{Double}
use delta_assignment.Order.{Order, OrderType}
use delta_assignment.OrderManager.Types.{Env}
use delta_assignment.OrderManager.State.{OrderManager}
use delta_assignment.Execution.{
  ParentOrder, AlgoConfig, AlgoBase, make_algo, send_child, on_fill, forget_child, cancel_children,
  inflight, remaining_quantity, cross_price,
}
use delta_assignment.Execution.Twap
use delta_assignment.Execution.Twap.{TwapAlgo, make_twap, finish}

pub record PovAlgo (W : Type 0) : Type 0 where
  pub base : AlgoBase W
  pub last_tick : ℤ
  pub market_volume : ℤ
  pub degraded : Bool
  pub deadline_done : Bool
  pub twap : Option (TwapAlgo W)

module _ {W : Type 0} where
  abbrev pub make_pov : AlgoConfig W → PovAlgo W
  make_pov cfg = record {
    base = make_algo cfg;
    last_tick = pos 0;
    market_volume = pos 0;
    degraded = false;
    deadline_done = false;
    twap = none;
  }

  -- PovAlgo::start
  abbrev pub start_pov : PovAlgo W → ParentOrder → PovAlgo W
  start_pov p o = record p {
    base = record p.base { parent = o; stats = record p.base.stats { target_qty = o.qty } };
    last_tick = o.start;
  }

  -- `degraded_ && twap_`, and the TWAP where it holds
  abbrev pub held : PovAlgo W → Option (TwapAlgo W)
  held p = if p.degraded then p.twap else none

  abbrev pub open_quantity : Option (TwapAlgo W) → ℤ
  open_quantity none = pos 0
  open_quantity (some t) = inflight t.base

  -- PovAlgo::inflight
  abbrev pub pov_inflight : PovAlgo W → ℤ
  pov_inflight p = inflight p.base +ℤ open_quantity (held p)

  abbrev pub set_base : PovAlgo W → AlgoBase W → PovAlgo W
  set_base p b = record p { base = b }

  -- A change of the held TWAP, if there is one.
  abbrev pub change_held : (AlgoBase W → AlgoBase W) → PovAlgo W → PovAlgo W
  change_held f p = elim (held p) [
    | none ↦ p
    | some t ↦ record p { twap = some (record t { base = f t.base }) }
  ]

  -- PovAlgo::on_fill. A fill that is not of a child of its own goes to the TWAP as well.
  unfoldable pub pov_on_fill : PovAlgo W → Order → ℤ → PovAlgo W
  pov_on_fill p o qty =
      let own = record p { base = on_fill p.base o qty } in
      if is_some (lookup o.internal_id p.base.children)
      then own
      else change_held (λ (b : AlgoBase W). on_fill b o qty) own

  -- PovAlgo::on_reject and PovAlgo::on_cancel
  unfoldable pub pov_forget : PovAlgo W → Order → PovAlgo W
  pov_forget p o =
      if is_some (lookup o.internal_id p.base.children)
      then record p { base = forget_child p.base o }
      else change_held (λ (b : AlgoBase W). forget_child b o) p

  abbrev pub cancel_held : Env → Option (TwapAlgo W) → Option OrderManager → Option OrderManager
  cancel_held env none om = om
  cancel_held env (some t) om = cancel_children env t.base om

  -- PovAlgo::cancel
  abbrev pub pov_cancel : Env → PovAlgo W → Option OrderManager → Option OrderManager
  pov_cancel env p om = cancel_held env (held p) (cancel_children env p.base om)

  -- The TWAP's configuration, and the residual order that it is started with.
  abbrev pub residual_config : AlgoConfig W → AlgoConfig W
  residual_config cfg = record cfg { slices = cfg.residual_twap_slices }

  abbrev pub residual_order : PovAlgo W → ℤ → ParentOrder
  residual_order p now = record p.base.parent {
    qty = remaining_quantity p.base (pov_inflight p);
    start = now;
  }

  abbrev pub hold : TwapAlgo W → PovAlgo W → PovAlgo W
  hold t p = record p {
    degraded = true;
    base = record p.base { stats = record p.base.stats { degraded_to_twap = true } };
    twap = some t;
  }

  -- PovAlgo::degrade_to_twap
  unfoldable pub degrade_to_twap : ℤ → PovAlgo W → PovAlgo W
  degrade_to_twap now p =
      let t = make_twap (residual_config p.base.config) in
      let p' = hold t p in record p' { twap = some (Twap.start t (residual_order p' now)) }

  -- A timer of the held TWAP.
  abbrev pub tick_twap :
      Env → ℤ → TwapAlgo W → PovAlgo W → Option OrderManager → PovAlgo W × Option OrderManager
  tick_twap env now t p om =
      let ticked = Twap.on_timer env now t om in (record p { twap = some ticked.0 }, ticked.1)

  -- The order of PovAlgo::deadline_cross for what is not filled, if anything is not.
  abbrev pub cross_unfilled :
      Env → PovAlgo W → Option OrderManager → PovAlgo W × Option OrderManager
  cross_unfilled env p om =
      let residual = p.base.parent.qty -ℤ p.base.filled in
      if ltb_ℤ (pos 0) residual
      then (let sent = send_child env residual (cross_price p.base) OrderType.ioc p.base om in
          (set_base p sent.0, sent.1))
      else (p, om)

  abbrev pub cross_held :
      Env
      → ℤ
      → Option (TwapAlgo W)
      → PovAlgo W
      → Option OrderManager
      → PovAlgo W × Option OrderManager
  cross_held env now none p om = cross_unfilled env p (pov_cancel env p om)
  cross_held env now (some t) p om = tick_twap env now t p om

  -- PovAlgo::deadline_cross
  unfoldable pub pov_deadline_cross :
      Env → ℤ → PovAlgo W → Option OrderManager → PovAlgo W × Option OrderManager
  pov_deadline_cross env now p om =
      if p.deadline_done
      then (p, om)
      else cross_held env now (held p) (record p { deadline_done = true }) om

  -- PovAlgo::on_timer at the deadline
  abbrev pub pov_at_deadline :
      Env → ℤ → PovAlgo W → Option OrderManager → PovAlgo W × Option OrderManager
  pov_at_deadline env now p om =
      let crossed = pov_deadline_cross env now p om in
      (set_base crossed.0 (finish crossed.0.base (pov_inflight crossed.0)), crossed.1)

  -- PovAlgo::on_timer with a TWAP, which is done when the TWAP is
  abbrev pub pov_follow :
      Env → ℤ → TwapAlgo W → PovAlgo W → Option OrderManager → PovAlgo W × Option OrderManager
  pov_follow env now t p om =
      let ticked = Twap.on_timer env now t om in
      let p' = record p { twap = some ticked.0 } in
      (if ticked.0.base.done then set_base p' (record p'.base { done = true }) else p', ticked.1)

module _ {W : Type 0} ⦃d : Double W⦄ where
  -- static_cast<Quantity>(participation_rate * static_cast<double>(volume))
  abbrev pub share : AlgoConfig W → ℤ → ℤ
  share cfg volume = d.to_int (d.mul cfg.participation_rate (d.of_int volume))

  abbrev pub volume_of : PovAlgo W → ℤ
  volume_of p = elim p.base.config.mds [
    | none ↦ pos 0
    | some mds ↦ mds.volume_since p.base.parent.instrument p.last_tick
  ]

  abbrev pub observe : ℤ → ℤ → PovAlgo W → PovAlgo W
  observe now vol p =
      let volume = p.market_volume +ℤ vol in
      record p {
        last_tick = now;
        market_volume = volume;
        base = record p.base { stats = record p.base.stats { market_volume = volume } };
      }

  abbrev pub idle : PovAlgo W → PovAlgo W
  idle p = set_base p (record p.base {
    stats = record p.base.stats { idle_intervals = bump p.base.stats.idle_intervals };
  })

  -- `catch_up_threshold > 0 && shortfall > catch_up_threshold`
  abbrev pub falls_behind : PovAlgo W → Bool
  falls_behind p =
      let cfg = p.base.config in
      ltb_ℤ (pos 0) cfg.catch_up_threshold
      && ltb_ℤ cfg.catch_up_threshold (share cfg p.market_volume -ℤ p.base.filled)

  abbrev pub degrade_and_tick :
      Env → ℤ → PovAlgo W → Option OrderManager → PovAlgo W × Option OrderManager
  degrade_and_tick env now p om =
      let p' = degrade_to_twap now p in
      elim p'.twap [ none ↦ (p', om) | some t ↦ tick_twap env now t p' om ]

  -- The child of an interval: the share of its volume, capped by what remains.
  abbrev pub participate :
      Env → ℤ → PovAlgo W → Option OrderManager → PovAlgo W × Option OrderManager
  participate env vol p om =
      let wanted = share p.base.config vol in
      let rem = remaining_quantity p.base (pov_inflight p) in
      let child = if ltb_ℤ rem wanted then rem else wanted in
      if leb_ℤ child (pos 0)
      then (p, om)
      else (let sent = send_child env child p.base.parent.limit OrderType.limit p.base om in
          (set_base p sent.0, sent.1))

  -- The stages of PovAlgo::on_timer on an interval's volume.
  abbrev pub pov_stage :
      Env → ℤ → ℤ → PovAlgo W → Option OrderManager → PovAlgo W × Option OrderManager
  pov_stage env now vol p om =
      if ltb_ℤ vol p.base.config.min_volume_floor || leb_ℤ vol (pos 0)
      then (idle p, om)
      else if falls_behind p
      then degrade_and_tick env now p om
      else participate env vol p om

  -- PovAlgo::on_timer before the deadline
  abbrev pub pov_work :
      Env
      → ℤ
      → Option (TwapAlgo W)
      → PovAlgo W
      → Option OrderManager
      → PovAlgo W × Option OrderManager
  pov_work env now none p om = pov_stage env now (volume_of p) (observe now (volume_of p) p) om
  pov_work env now (some t) p om = pov_follow env now t p om

  -- PovAlgo::on_timer
  unfoldable pub pov_on_timer :
      Env → ℤ → PovAlgo W → Option OrderManager → PovAlgo W × Option OrderManager
  unfolding pov_deadline_cross degrade_to_twap
  pov_on_timer env now p om =
      if p.base.done
      then (p, om)
      else if leb_ℤ p.base.parent.end now
      then pov_at_deadline env now p om
      else pov_work env now (held p) p om
