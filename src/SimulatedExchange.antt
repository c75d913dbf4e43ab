-- ===== src/SimulatedExchange.antt =====
-- SimulatedExchange, less its seed (sim/SimulatedExchange.h, sim/SimulatedExchange.cpp): the state, the
-- requests but for place_order, and the deliveries. The calls of the event sink are the result of a
-- delivery, in their order.
pub mod Placing
pub mod Delivery
pub mod Booking
use delta_assignment.Common.{
  ℕ, zero, suc, ◌+◌, ◌-◌, ◌%◌, ◌^◌, ◌==◌, max, ltb, bump, Bool, true, false, not, ◌&&◌, ◌||◌,
  String, List, [], ◌∷◌, ◌++◌, Option, none, some, contains, add, insert_by, if◌then◌else◌,
}
use delta_assignment.Common.Int.{ℤ, pos, pos_part, ◌+ℤ◌, ◌-ℤ◌, ◌*ℤ◌, leb_ℤ, ltb_ℤ, eqb_ℤ, quot}
use delta_assignment.Common.Dict.{Dict, lookup, find_or, insert}
use delta_assignment.OrderId.{OrderIdRaw}
use delta_assignment.Order.{Order, Side, signed_qty}
use delta_assignment.OrderManager.Types.{SendResult, RejectReason}
use delta_assignment.Execution.{TopOfBook}

pub record SimConfig (W : Type 0) : Type 0 where
  pub step_ns : ℤ
  pub ack_latency_ns : ℤ
  pub fill_latency_ns : ℤ
  pub fill_gap_ns : ℤ
  pub partial_chunks : ℤ
  pub reject_prob : W
  pub unsolicited_cancel_prob : W
  pub duplicate_fill_prob : W
  pub reorder_fill_before_ack : Bool
  pub start_connected : Bool

pub data EvType : Type 0 where
  confirm fill reject cancel_ack cancel_reject unsolicited : EvType

pub record SimEvent : Type 0 where
  pub at_ns : ℤ
  pub seq : ℕ
  pub type : EvType
  pub id : OrderIdRaw
  pub qty : ℤ
  pub price : ℤ
  pub trade : ℕ
  pub final : Bool
  pub reason : RejectReason

pub record Working : Type 0 where
  pub instrument : ℕ
  pub side : Side
  pub size : ℤ
  pub remaining : ℤ
  pub price : ℤ
  pub exchange_id : String
  pub alive : Bool
  pub seen_trades : List ℕ

pub record SimulatedExchange (W R : Type 0) : Type 0 where
  pub cfg : SimConfig W
  pub rng : R
  pub has_sink : Bool
  pub connected : Bool
  pub now : ℤ
  pub seq_counter : ℕ
  pub exch_counter : ℕ
  pub trade_counter : ℕ
  pub queue : List SimEvent
  pub working : Dict Working
  pub positions : Dict ℤ
  pub books : Dict TopOfBook

abbrev pub no_book : TopOfBook
no_book = record { bid = pos 0; ask = pos 0; bid_size = pos 0; ask_size = pos 0; ts = pos 0 }

-- A call of the event sink.
pub data SinkCall : Type 0 where
  on_confirm : OrderIdRaw → String → ℤ → SinkCall
  on_fill : OrderIdRaw → ℤ → ℤ → ℕ → ℤ → SinkCall
  on_reject : OrderIdRaw → RejectReason → ℤ → SinkCall
  on_cancel_ack : OrderIdRaw → ℤ → SinkCall
  on_unsolicited_cancel : OrderIdRaw → ℤ → SinkCall

-- The order in which the queue gives its events out, the contrary of EventGreater.
abbrev pub comes_first : SimEvent → SimEvent → Bool
comes_first a b = if eqb_ℤ a.at_ns b.at_ns then ltb a.seq b.seq else ltb_ℤ a.at_ns b.at_ns

-- An event as a caller of `schedule` makes it.
abbrev pub sim_event : EvType → OrderIdRaw → ℤ → RejectReason → SimEvent
sim_event type id at_ns reason = record {
  at_ns = at_ns;
  seq = 0;
  type = type;
  id = id;
  qty = pos 0;
  price = pos 0;
  trade = 0;
  final = false;
  reason = reason;
}

abbrev pub fill_event : OrderIdRaw → ℤ → ℤ → ℤ → ℕ → Bool → SimEvent
fill_event id at_ns qty price trade final =
    record (sim_event EvType.fill id at_ns RejectReason.unknown) {
      qty = qty;
      price = price;
      trade = trade;
      final = final;
    }

-- A fill at the order's first sighting of its trade.
abbrev pub take_fill : SimEvent → Working → Working
take_fill ev w =
    let left = w.remaining -ℤ ev.qty in
    record w {
      remaining = left;
      seen_trades = add ev.trade w.seen_trades;
      alive = if ev.final || leb_ℤ left (pos 0) then false else w.alive;
    }

abbrev pub counts : SimEvent → Working → Bool
counts ev w = not (contains ev.trade w.seen_trades) && w.alive

abbrev pub id_text : Option Working → String
id_text none = ""
id_text (some w) = w.exchange_id

module _ {W R : Type 0} where
  -- SimulatedExchange::SimulatedExchange, with the generator that it seeds
  abbrev pub make_sim : SimConfig W → R → SimulatedExchange W R
  make_sim cfg rng = record {
    cfg = cfg;
    rng = rng;
    has_sink = false;
    connected = cfg.start_connected;
    now = pos 0;
    seq_counter = 0;
    exch_counter = 0;
    trade_counter = 0;
    queue = [];
    working = [];
    positions = [];
    books = [];
  }

  -- SimulatedExchange::set_event_sink, to a sink
  abbrev pub set_event_sink : SimulatedExchange W R → SimulatedExchange W R
  set_event_sink x = record x { has_sink = true }

  -- SimulatedExchange::get_order_book
  abbrev pub get_order_book : SimulatedExchange W R → ℕ → TopOfBook
  get_order_book x inst = find_or no_book inst x.books

  -- SimulatedExchange::schedule
  unfoldable pub schedule : SimEvent → SimulatedExchange W R → SimulatedExchange W R
  schedule ev x = record x {
    seq_counter = bump x.seq_counter;
    queue = insert_by comes_first (record ev { seq = x.seq_counter }) x.queue;
  }

  abbrev pub schedule_in :
      ℤ → EvType → OrderIdRaw → RejectReason → SimulatedExchange W R → SimulatedExchange W R
  schedule_in delay type id reason x = schedule (sim_event type id (x.now +ℤ delay) reason) x

  -- SimulatedExchange::set_book, set_connected and set_position
  abbrev pub set_book : SimulatedExchange W R → ℕ → TopOfBook → SimulatedExchange W R
  set_book x inst b = record x { books = insert inst b x.books }

  abbrev pub set_connected : SimulatedExchange W R → Bool → SimulatedExchange W R
  set_connected x c = record x { connected = c }

  abbrev pub set_position : SimulatedExchange W R → ℕ → ℤ → SimulatedExchange W R
  set_position x inst q = record x { positions = insert inst q x.positions }

  abbrev pub is_alive : SimulatedExchange W R → OrderIdRaw → Bool
  is_alive x id = elim (lookup id x.working) [ none ↦ false | some w ↦ w.alive ]

  -- SimulatedExchange::cancel_order
  unfoldable pub sim_cancel_order :
      SimulatedExchange W R → OrderIdRaw → SimulatedExchange W R × SendResult
  sim_cancel_order x id =
      if not x.connected
      then (x, SendResult.transport_down)
      else if is_alive x id
      then (
        schedule_in x.cfg.ack_latency_ns EvType.cancel_ack id RejectReason.unknown x,
        SendResult.ok,
      )
      else (
        schedule_in x.cfg.ack_latency_ns EvType.cancel_reject id RejectReason.cancel_rejected x,
        SendResult.ok,
      )

  -- The loop of SimulatedExchange::mass_cancel.
  abbrev pub cancel_all_of : ℕ → Dict Working → SimulatedExchange W R → SimulatedExchange W R
  cancel_all_of inst [] x = x
  cancel_all_of inst ((id, w) ∷ rest) x = cancel_all_of inst rest (
      if w.alive && (w.instrument == inst)
      then schedule_in x.cfg.ack_latency_ns EvType.cancel_ack id RejectReason.unknown x
      else x)

  -- SimulatedExchange::mass_cancel
  unfoldable pub mass_cancel : SimulatedExchange W R → ℕ → SimulatedExchange W R × SendResult
  mass_cancel x inst =
      if not x.connected
      then (x, SendResult.transport_down)
      else (cancel_all_of inst x.working x, SendResult.ok)

  -- `alive = false`, where the order is there.
  abbrev pub end_found : OrderIdRaw → Option Working → SimulatedExchange W R → SimulatedExchange W R
  end_found id none x = x
  end_found id (some w) x = record x { working = insert id (record w { alive = false }) x.working }

  abbrev pub end_working : OrderIdRaw → SimulatedExchange W R → SimulatedExchange W R
  end_working id x = end_found id (lookup id x.working) x

  -- The exchange's own book at a fill: only the first sighting of a trade of a live order counts.
  abbrev pub book_trade : SimEvent → Option Working → SimulatedExchange W R → SimulatedExchange W R
  book_trade ev none x = x
  book_trade ev (some w) x =
      if counts ev w
      then record x {
        working = insert ev.id (take_fill ev w) x.working;
        positions =
            insert w.instrument
              (find_or (pos 0) w.instrument x.positions +ℤ signed_qty w.side ev.qty) x.positions;
      }
      else record x {
        working = insert ev.id (record w { seen_trades = add ev.trade w.seen_trades }) x.working;
      }

  -- The switch of SimulatedExchange::deliver.
  abbrev pub deliver_as :
      EvType → SimEvent → SimulatedExchange W R → SimulatedExchange W R × SinkCall
  deliver_as EvType.confirm ev x =
      (x, SinkCall.on_confirm ev.id (id_text (lookup ev.id x.working)) ev.at_ns)
  deliver_as EvType.fill ev x = (
    book_trade ev (lookup ev.id x.working) x,
    SinkCall.on_fill ev.id ev.qty ev.price ev.trade ev.at_ns,
  )
  deliver_as EvType.reject ev x = (end_working ev.id x, SinkCall.on_reject ev.id ev.reason ev.at_ns)
  deliver_as EvType.cancel_ack ev x = (end_working ev.id x, SinkCall.on_cancel_ack ev.id ev.at_ns)
  deliver_as EvType.cancel_reject ev x =
      (x, SinkCall.on_reject ev.id RejectReason.cancel_rejected ev.at_ns)
  deliver_as EvType.unsolicited ev x =
      (end_working ev.id x, SinkCall.on_unsolicited_cancel ev.id ev.at_ns)

  -- SimulatedExchange::deliver
  unfoldable pub deliver : SimEvent → SimulatedExchange W R → SimulatedExchange W R × List SinkCall
  deliver ev x =
      let done = deliver_as ev.type ev x in if x.has_sink then (done.0, done.1 ∷ []) else (x, [])

  -- The loop of SimulatedExchange::poll, over the queue.
  abbrev pub deliver_due :
      List SimEvent → SimulatedExchange W R → SimulatedExchange W R × List SinkCall
  deliver_due [] x = (record x { queue = [] }, [])
  deliver_due (ev ∷ queue) x =
      let one = deliver ev x in
      let rest = deliver_due queue one.0 in
      if leb_ℤ ev.at_ns x.now
      then (rest.0, one.1 ++ rest.1)
      else (record x { queue = ev ∷ queue }, [])

  -- SimulatedExchange::poll
  unfoldable pub poll : SimulatedExchange W R → SimulatedExchange W R × List SinkCall
  unfolding deliver
  poll x = deliver_due x.queue (record x { now = x.now +ℤ x.cfg.step_ns })

  -- SimulatedExchange::inject_confirm to inject_unsolicited_cancel
  abbrev pub inject :
      EvType → RejectReason → OrderIdRaw → SimulatedExchange W R → SimulatedExchange W R
  inject type reason id x = schedule_in (pos 1) type id reason x

  abbrev pub inject_fill :
      OrderIdRaw → ℤ → ℤ → ℕ → Bool → SimulatedExchange W R → SimulatedExchange W R
  inject_fill id qty price trade final x =
      schedule (fill_event id (x.now +ℤ pos 1) qty price trade final) x
