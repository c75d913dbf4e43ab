-- ===== src/Periodic.antt =====
-- PeriodicReconciler of include/oms/Reconciliation.h and src/Reconciliation.cpp, over the order manager.
-- What the exchanges report in one cycle is an argument; log lines are left out. The set of
-- instruments is visited in ascending order.
pub mod Safety
pub mod Judgement
use delta_assignment.Common.{
  bump, ltb, sort_by, ℕ, Bool, true, false, List, [], ◌∷◌, Option, none, some, add, if◌then◌else◌,
}
use delta_assignment.Common.Int.{ℤ, pos, neg, ◌+ℤ◌, ◌-ℤ◌, ltb_ℤ, leb_ℤ}
use delta_assignment.Common.Dict.{Dict, find_or, insert, keys}
use delta_assignment.Order.{Side, OrderType}
use delta_assignment.Registry.{ExchangeRegistry, get, venues}
use delta_assignment.OrderManager.Types.{Client, Env, OrderRequest}
use delta_assignment.OrderManager.State.{OrderManager, position, instruments}
use delta_assignment.OrderManager.Submit.{submit}
use delta_assignment.Reconciliation.{add_all}

pub data DriftAction : Type 0 where
  in_sync pending_confirm auto_healed halting : DriftAction

pub record DriftRecord : Type 0 where
  pub inst : ℕ
  pub at_exchange : ℤ
  pub oms : ℤ
  pub drift : ℤ
  pub action : DriftAction
  pub ts : ℤ

pub record PeriodicReconConfig : Type 0 where
  pub reconcile_threshold : ℤ
  pub auto_heal_band : ℤ
  pub persist_cycles : ℤ

pub record PeriodicReconciler : Type 0 where
  pub om : OrderManager
  pub persist : Dict ℤ
  pub halted : Bool
  pub corrective_orders : ℕ
  pub halts : ℕ

-- What the clients report: get_positions by venue, and the mid price of the client of venue 0.
pub record Reported : Type 0 where
  pub get_positions : ℕ → Dict ℤ
  pub mid : ℕ → ℤ

-- ex_pos[inst] += q, for each position of a venue
abbrev pub add_positions : Dict ℤ → Dict ℤ → Dict ℤ
add_positions [] ex_pos = ex_pos
add_positions ((inst, q) ∷ ps) ex_pos =
    add_positions ps (insert inst (find_or (pos 0) inst ex_pos +ℤ q) ex_pos)

abbrev pub venue_positions : Option Client → Dict ℤ → Dict ℤ → Dict ℤ
venue_positions none ps ex_pos = ex_pos
venue_positions (some ex) ps ex_pos = if ex.is_connected then add_positions ps ex_pos else ex_pos

-- The loop over the venues.
abbrev pub snapshot : ExchangeRegistry Client → Reported → List ℕ → Dict ℤ → Dict ℤ
snapshot registry reported [] ex_pos = ex_pos
snapshot registry reported (v ∷ vs) ex_pos =
    snapshot registry reported vs
      (venue_positions (get registry v) (reported.get_positions v) ex_pos)

-- drift < 0 ? -drift : drift
abbrev pub size_of : ℤ → ℤ
size_of drift = if ltb_ℤ drift (pos 0) then neg drift else drift

abbrev pub mid_price : Option Client → ℤ → ℤ
mid_price none mid = pos 0
mid_price (some ex) mid = mid

-- The corrective order for a drift.
abbrev pub corrective : Env → Reported → ℕ → ℤ → OrderRequest
corrective env reported inst drift =
    let price = mid_price (get env.registry 0) (reported.mid inst) in
    record {
      instrument = inst;
      side = if ltb_ℤ (pos 0) drift then Side.buy else Side.sell;
      size = size_of drift;
      price = if leb_ℤ price (pos 0) then pos 1 else price;
      type = OrderType.ioc;
      strategy_id = 0;
      algo_tag = 0;
      worker_index = pos 0;
      worker_offset = 0;
      reconciliation = true;
    }

-- persist_[inst] = c
abbrev pub set_persist : ℕ → ℤ → PeriodicReconciler → PeriodicReconciler
set_persist inst c r = record r { persist = insert inst c r.persist }

-- The body of the loop over the instruments, from the drift on.
unfoldable pub act :
    PeriodicReconConfig
    → Env
    → Reported
    → ℕ
    → ℤ
    → PeriodicReconciler
    → PeriodicReconciler × DriftAction
act cfg env reported inst drift r =
    let c = find_or (pos 0) inst r.persist +ℤ pos 1 in
    if leb_ℤ (size_of drift) cfg.reconcile_threshold
    then (set_persist inst (pos 0) r, DriftAction.in_sync)
    else if ltb_ℤ c cfg.persist_cycles
    then (set_persist inst c r, DriftAction.pending_confirm)
    else if leb_ℤ (size_of drift) cfg.auto_heal_band
    then (
      record (set_persist inst (pos 0) r) {
        om = (submit env r.om (corrective env reported inst drift)).0;
        corrective_orders = bump r.corrective_orders;
      },
      DriftAction.auto_healed,
    )
    else (
      record (set_persist inst (pos 0) r) { halted = true; halts = bump r.halts },
      DriftAction.halting,
    )

abbrev pub drift_at : Dict ℤ → OrderManager → ℕ → ℤ
drift_at ex_pos om inst = find_or (pos 0) inst ex_pos -ℤ (position om inst).net

-- The loop over the instruments. It ends at a halt.
unfoldable pub cycle :
    PeriodicReconConfig
    → Env
    → Reported
    → ℤ
    → Dict ℤ
    → List ℕ
    → PeriodicReconciler
    → PeriodicReconciler × List DriftRecord
cycle cfg env reported now ex_pos [] r = (r, [])
cycle cfg env reported now ex_pos (inst ∷ insts) r =
    let drift = drift_at ex_pos r.om inst in
    let acted = act cfg env reported inst drift r in
    let line : DriftRecord = record {
      inst = inst;
      at_exchange = find_or (pos 0) inst ex_pos;
      oms = (position r.om inst).net;
      drift = drift;
      action = acted.1;
      ts = now;
    } in
    let rest = cycle cfg env reported now ex_pos insts acted.0 in
    if acted.0.halted then (acted.0, line ∷ []) else (rest.0, line ∷ rest.1)

abbrev pub exchange_positions : Env → Reported → Dict ℤ
exchange_positions env reported = snapshot env.registry reported (venues env.registry) []

-- PeriodicReconciler::reconcile
unfoldable pub reconcile_now :
    PeriodicReconConfig
    → Env
    → Reported
    → ℤ
    → PeriodicReconciler
    → PeriodicReconciler × List DriftRecord
reconcile_now cfg env reported now r =
    let ex_pos = exchange_positions env reported in
    let insts = sort_by ltb (add_all (instruments r.om) (add_all (keys ex_pos) [])) in
    if r.halted then (r, []) else cycle cfg env reported now ex_pos insts r

-- PeriodicReconciler::rearm
abbrev pub rearm : PeriodicReconciler → PeriodicReconciler
rearm r = record r { halted = false }
