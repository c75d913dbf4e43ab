-- ===== src/Execution.antt =====
-- The execution algorithms' shared part (include/oms/ExecutionAlgo.h and AlgoBase in src/ExecutionAlgo.cpp).
-- An algorithm and the order manager that its configuration points to are passed from call to call.
-- `nullptr` is none. Log lines are left out, and so is the result of AlgoBase::send_child, which no caller reads.
use delta_assignment.Common.{
  ℕ, Bool, true, false, List, [], ◌∷◌, Option, none, some, ◌==◌, bump, if◌then◌else◌,
}
use delta_assignment.Common.Int.{ℤ, pos, ◌+ℤ◌, ◌-ℤ◌, leb_ℤ, ltb_ℤ, quot}
use delta_assignment.Common.Dict.{Dict, lookup, insert, erase, keys}
use delta_assignment.OrderId.{OrderIdRaw}
use delta_assignment.Order.{Order, OrderStatus, OrderType, Side, remaining}
use delta_assignment.OrderManager.Types.{Env, OrderRequest}
use delta_assignment.OrderManager.State.{OrderManager}
use delta_assignment.OrderManager.Submit.{submit, cancel}
pub mod Twap
pub mod Sums
pub mod Committed
pub mod Schedule
pub mod Run
pub mod Pov
pub mod Keep
pub mod Participation
pub mod Dispatch

-- detail::ceil_div
unfoldable pub ceil_div : ℤ → ℤ → ℤ
ceil_div a b = if leb_ℤ b (pos 0) then a else quot (a +ℤ b -ℤ pos 1) b

pub record TopOfBook : Type 0 where
  pub bid : ℤ
  pub ask : ℤ
  pub bid_size : ℤ
  pub ask_size : ℤ
  pub ts : ℤ

-- The queries of MarketDataSource.
pub record MarketDataSource : Type 0 where
  pub top_of_book : ℕ → TopOfBook
  pub volume_since : ℕ → ℤ → ℤ

pub record ParentOrder : Type 0 where
  pub instrument : ℕ
  pub side : Side
  pub qty : ℤ
  pub start : ℤ
  pub end : ℤ
  pub limit : ℤ
  pub strategy_id : ℕ

pub record AlgoStats : Type 0 where
  pub target_qty : ℤ
  pub filled_qty : ℤ
  pub market_volume : ℤ
  pub child_orders : ℕ
  pub idle_intervals : ℕ
  pub degraded_to_twap : Bool
  pub incomplete_at_deadline : Bool

-- AlgoConfig, but for the pointer to the order manager.
pub record AlgoConfig (W : Type 0) : Type 0 where
  pub mds : Option MarketDataSource
  pub worker_offset : ℕ
  pub worker_index : ℤ
  pub algo_tag : ℕ
  pub slices : ℤ
  pub participation_rate : W
  pub min_volume_floor : ℤ
  pub catch_up_threshold : ℤ
  pub residual_twap_slices : ℤ

pub record AlgoBase (W : Type 0) : Type 0 where
  pub config : AlgoConfig W
  pub parent : ParentOrder
  pub filled : ℤ
  pub sent_total : ℤ
  pub children : Dict ℤ
  pub stats : AlgoStats
  pub done : Bool

abbrev pub no_parent : ParentOrder
no_parent = record {
  instrument = 0;
  side = Side.buy;
  qty = pos 0;
  start = pos 0;
  end = pos 0;
  limit = pos 0;
  strategy_id = 0;
}

abbrev pub no_stats : AlgoStats
no_stats = record {
  target_qty = pos 0;
  filled_qty = pos 0;
  market_volume = pos 0;
  child_orders = 0;
  idle_intervals = 0;
  degraded_to_twap = false;
  incomplete_at_deadline = false;
}

abbrev pub is_filled : OrderStatus → Bool
is_filled OrderStatus.filled = true
is_filled _ = false

-- The sum over `children_`.
abbrev pub sum_values : Dict ℤ → ℤ
sum_values [] = pos 0
sum_values ((id, rem) ∷ m) = rem +ℤ sum_values m

-- The loop of AlgoBase::cancel, over the ids that it copied.
abbrev pub cancel_ids : Env → List OrderIdRaw → OrderManager → OrderManager
cancel_ids env [] om = om
cancel_ids env (id ∷ ids) om = cancel_ids env ids (cancel env om id).0

abbrev pub cross_side : Side → TopOfBook → ℤ
cross_side Side.buy b = b.ask
cross_side Side.sell b = b.bid

-- The price of the book where it is positive.
abbrev pub cross_or : ℤ → ℤ → ℤ
cross_or limit p = if ltb_ℤ (pos 0) p then p else limit

-- A child after a fill: it is forgotten, or what remains of it is noted.
abbrev pub shrink_child : Order → Dict ℤ → Dict ℤ
shrink_child o m =
    if is_filled o.status then erase o.internal_id m else insert o.internal_id (remaining o) m

abbrev pub settle_child : Option ℤ → Order → Dict ℤ → Dict ℤ
settle_child none o m = m
settle_child (some r) o m = shrink_child o m

module _ {W : Type 0} where
  abbrev pub make_algo : AlgoConfig W → AlgoBase W
  make_algo cfg = record {
    config = cfg;
    parent = no_parent;
    filled = pos 0;
    sent_total = pos 0;
    children = [];
    stats = no_stats;
    done = false;
  }

  abbrev pub child_request : AlgoBase W → ℤ → ℤ → OrderType → OrderRequest
  child_request b qty price type = record {
    instrument = b.parent.instrument;
    side = b.parent.side;
    size = qty;
    price = price;
    type = type;
    strategy_id = b.parent.strategy_id;
    algo_tag = b.config.algo_tag;
    worker_index = b.config.worker_index;
    worker_offset = b.config.worker_offset;
    reconciliation = false;
  }

  -- What AlgoBase::send_child keeps of an order that was given an id.
  unfoldable pub note_child : OrderIdRaw → ℤ → AlgoBase W → AlgoBase W
  note_child id qty b = if id == 0 then b else record b {
    children = insert id qty b.children;
    sent_total = b.sent_total +ℤ qty;
    stats = record b.stats { child_orders = bump b.stats.child_orders };
  }

  -- AlgoBase::send_child, to an order manager
  abbrev pub submit_child :
      Env → ℤ → ℤ → OrderType → AlgoBase W → Option OrderManager → AlgoBase W × Option OrderManager
  submit_child env qty price type b none = (b, none)
  submit_child env qty price type b (some om) =
      let sent = submit env om (child_request b qty price type) in
      (note_child sent.1 qty b, some sent.0)

  -- AlgoBase::send_child
  unfoldable pub send_child :
      Env → ℤ → ℤ → OrderType → AlgoBase W → Option OrderManager → AlgoBase W × Option OrderManager
  send_child env qty price type b om =
      if leb_ℤ qty (pos 0) then (b, om) else submit_child env qty price type b om

  -- The fill's quantity, and whether the parent is filled.
  abbrev pub count_fill : ℤ → Dict ℤ → AlgoBase W → AlgoBase W
  count_fill qty children b =
      let filled = b.filled +ℤ qty in
      record b {
        filled = filled;
        stats = record b.stats { filled_qty = filled };
        children = children;
        done = if leb_ℤ b.parent.qty filled then true else b.done;
      }

  -- AlgoBase::on_fill
  unfoldable pub on_fill : AlgoBase W → Order → ℤ → AlgoBase W
  on_fill b o qty = count_fill qty (settle_child (lookup o.internal_id b.children) o b.children) b

  -- AlgoBase::on_reject and AlgoBase::on_cancel
  abbrev pub forget_child : AlgoBase W → Order → AlgoBase W
  forget_child b o = record b { children = erase o.internal_id b.children }

  -- AlgoBase::cancel
  abbrev pub cancel_children : Env → AlgoBase W → Option OrderManager → Option OrderManager
  cancel_children env b none = none
  cancel_children env b (some om) = some (cancel_ids env (keys b.children) om)

  -- AlgoBase::inflight
  abbrev pub inflight : AlgoBase W → ℤ
  inflight b = sum_values b.children

  -- AlgoBase::remaining_quantity, by what the virtual `inflight` gives
  unfoldable pub remaining_quantity : AlgoBase W → ℤ → ℤ
  remaining_quantity b inflight =
      let r = b.parent.qty -ℤ b.filled -ℤ inflight in if ltb_ℤ (pos 0) r then r else pos 0

  -- AlgoBase::cross_price
  abbrev pub cross_price : AlgoBase W → ℤ
  cross_price b = elim b.config.mds [
    | none ↦ b.parent.limit
    | some mds ↦
        cross_or b.parent.limit (cross_side b.parent.side (mds.top_of_book b.parent.instrument))
  ]
