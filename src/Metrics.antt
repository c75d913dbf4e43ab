-- ===== src/Metrics.antt =====
-- Distribution and MetricsCollector (include/oms/Metrics.h, src/Metrics.cpp), which subscribe to the order
-- manager's events. The quantiles are arguments; the file that write_summary_csv writes is not modelled.
pub mod Samples
pub mod Cycles
use delta_assignment.Common.{
  ℕ, ◌==◌, bump, is_some, Bool, true, false, ◌&&◌, not, List, [], Option, none, some, length,
  if◌then◌else◌,
}
use delta_assignment.Common.Int.{ℤ, pos, negsuc, ◌+ℤ◌, ◌-ℤ◌, leb_ℤ, ltb_ℤ, eqb_ℤ, quot}
use delta_assignment.Common.Dict.{Dict, lookup, find_or, insert, erase}
use delta_assignment.Double.{Double}
use delta_assignment.RingBuffer
use delta_assignment.RingBuffer.{RingBuffer, make_ring, percentile}
use delta_assignment.OrderId.{OrderIdRaw}
use delta_assignment.Order.{Order, Side, avg_fill_price}
use delta_assignment.OrderManager.Types.{OrderEvent, OrderEventKind}
use delta_assignment.OrderManager.State.{OrderManager, find}
use delta_assignment.Execution.{TopOfBook, MarketDataSource}

pub record Distribution : Type 0 where
  pub buf : RingBuffer ℤ
  pub sum : ℤ
  pub count_all : ℕ

abbrev pub make_distribution : ℕ → Distribution
make_distribution capacity = record { buf = make_ring capacity; sum = pos 0; count_all = 0 }

-- Distribution::add
unfoldable pub add_sample : ℤ → Distribution → Distribution
add_sample v d = record {
  buf = RingBuffer.push v d.buf;
  sum = d.sum +ℤ v;
  count_all = bump d.count_all;
}

-- TopOfBook::mid
abbrev pub mid : TopOfBook → ℤ
mid b = quot (b.bid +ℤ b.ask) (pos 2)

pub record MetricsCollector : Type 0 where
  pub mds : Option MarketDataSource
  pub arrival_mid : Dict ℤ
  pub ref_vwap : Dict ℤ
  pub slip_arrival : Distribution
  pub slip_vwap : Distribution
  pub ttf : Distribution
  pub ack_latency : Distribution
  pub fill_rate : Distribution
  pub filled_orders : ℕ
  pub cycles : ℕ
  pub completed_cycles : ℕ
  pub demotions : ℕ
  pub recoveries : ℕ
  pub netting_saved : ℤ

abbrev pub make_metrics : Option MarketDataSource → MetricsCollector
make_metrics mds = record {
  mds = mds;
  arrival_mid = [];
  ref_vwap = [];
  slip_arrival = make_distribution 1024;
  slip_vwap = make_distribution 1024;
  ttf = make_distribution 1024;
  ack_latency = make_distribution 1024;
  fill_rate = make_distribution 4096;
  filled_orders = 0;
  cycles = 0;
  completed_cycles = 0;
  demotions = 0;
  recoveries = 0;
  netting_saved = pos 0;
}

-- MetricsCollector::set_reference_vwap
abbrev pub set_reference_vwap : MetricsCollector → ℕ → ℤ → MetricsCollector
set_reference_vwap m inst vwap = record m { ref_vwap = insert inst vwap m.ref_vwap }

-- MetricsCollector::add_demotion
abbrev pub add_demotion : MetricsCollector → MetricsCollector
add_demotion m = record m { demotions = bump m.demotions }

-- MetricsCollector::add_recovery
abbrev pub add_recovery : MetricsCollector → MetricsCollector
add_recovery m = record m { recoveries = bump m.recoveries }

-- MetricsCollector::set_netting_saved
abbrev pub set_netting_saved : MetricsCollector → ℤ → MetricsCollector
set_netting_saved m n = record m { netting_saved = n }

-- The arrival mid, captured at the first confirmation.
abbrev pub capture : Option MarketDataSource → OrderIdRaw → ℕ → Dict ℤ → Dict ℤ
capture none id inst mids = mids
capture (some mds) id inst mids =
    if is_some (lookup id mids) then mids else insert id (mid (mds.top_of_book inst)) mids

abbrev pub sign_of : Side → ℤ
sign_of Side.buy = pos 1
sign_of Side.sell = negsuc 0

module _ {W : Type 0} (d : Double W) where
  -- Distribution::mean
  unfoldable pub mean : Distribution → W
  mean x =
      if x.count_all == 0
      then d.of_int (pos 0)
      else d.div (d.of_int x.sum) (d.of_int (pos x.count_all))

  -- Distribution::min and Distribution::max
  abbrev pub min_sample : Distribution → ℤ
  min_sample x = percentile ⦃d = d⦄ (d.of_int (pos 0)) x.buf

  abbrev pub max_sample : Distribution → ℤ
  max_sample x = percentile ⦃d = d⦄ (d.of_int (pos 1)) x.buf

  -- detail::bps
  unfoldable pub bps : ℤ → ℤ → ℤ → ℤ
  bps avg ref sign =
      if eqb_ℤ ref (pos 0)
      then pos 0
      else d.to_int (
          d.mul (d.div (d.mul (d.of_int (avg -ℤ ref)) (d.of_int sign)) (d.of_int ref))
            (d.of_int (pos 10000)))

  -- The slippage against a reference, recorded if the reference is positive.
  abbrev pub add_slippage : ℤ → ℤ → Side → Distribution → Distribution
  add_slippage avg ref side x =
      if ltb_ℤ (pos 0) ref then add_sample (bps avg ref (sign_of side)) x else x

  -- MetricsCollector::on_order_event, on a confirmation
  abbrev pub on_confirmed : OrderEvent → Order → MetricsCollector → MetricsCollector
  on_confirmed e o m = record m {
    arrival_mid = capture m.mds e.internal_id e.instrument m.arrival_mid;
    ack_latency = add_sample (o.ts.confirmed -ℤ o.ts.sent) m.ack_latency;
  }

  -- MetricsCollector::on_order_event, on the fill that completes an order
  abbrev pub on_filled : OrderEvent → Order → MetricsCollector → MetricsCollector
  on_filled e o m =
      let avg = avg_fill_price o in
      record m {
        filled_orders = bump m.filled_orders;
        slip_arrival =
            add_slippage avg (find_or (pos 0) e.internal_id m.arrival_mid) o.side m.slip_arrival;
        slip_vwap = add_slippage avg (find_or (pos 0) e.instrument m.ref_vwap) o.side m.slip_vwap;
        ttf =
            if leb_ℤ o.ts.created o.ts.terminal
            then add_sample (o.ts.terminal -ℤ o.ts.created) m.ttf
            else m.ttf;
        arrival_mid = erase e.internal_id m.arrival_mid;
      }

  abbrev pub measure : OrderEventKind → OrderEvent → Order → MetricsCollector → MetricsCollector
  measure OrderEventKind.confirmed e o m = on_confirmed e o m
  measure OrderEventKind.fill e o m = on_filled e o m
  measure _ e o m = m

  -- The order of an event, which is not measured where it is a corrective one.
  abbrev pub measure_found : OrderEvent → Option Order → MetricsCollector → MetricsCollector
  measure_found e none m = m
  measure_found e (some o) m = if o.reconciliation then m else measure e.kind e o m

  -- MetricsCollector::on_order_event
  unfoldable pub on_metrics_event : OrderManager → OrderEvent → MetricsCollector → MetricsCollector
  on_metrics_event om e m = measure_found e (find om e.internal_id) m

  -- The fill rate of a cycle in basis points.
  abbrev pub rate_bps : ℤ → ℤ → ℤ
  rate_bps filled target =
      d.to_int (d.mul (d.div (d.of_int filled) (d.of_int target)) (d.of_int (pos 10000)))

  -- MetricsCollector::record_cycle
  unfoldable pub record_cycle : ℤ → ℤ → MetricsCollector → MetricsCollector
  record_cycle target filled m =
      let counted = record m { cycles = bump m.cycles } in
      if leb_ℤ target (pos 0) then counted else record counted {
        fill_rate = add_sample (rate_bps filled target) m.fill_rate;
        completed_cycles =
            if leb_ℤ target filled then bump m.completed_cycles else m.completed_cycles;
      }

  -- MetricsCollector::rebalance_completion_rate
  unfoldable pub rebalance_completion_rate : MetricsCollector → W
  rebalance_completion_rate m =
      if m.cycles == 0
      then d.of_int (pos 0)
      else d.div (d.of_int (pos m.completed_cycles)) (d.of_int (pos m.cycles))
