-- ===== src/Tests/Exchanges.antt =====
-- Runs of the simulated exchange.
use delta_assignment.Common.{ℕ, ◌==◌, ◌≡◌, refl, Bool, not, true, false, String, List, [], ◌∷◌}
use delta_assignment.Common.Int.{ℤ, pos, ◌+ℤ◌, ◌-ℤ◌, ◌*ℤ◌, quot, eqb_ℤ}
use delta_assignment.Common.Dict.{find_or, insert}
use delta_assignment.Order.{Order, Side, fresh_order}
use delta_assignment.OrderManager.Types.{RejectReason}
use delta_assignment.SimulatedExchange.{
  SimConfig, SimEvent, SimulatedExchange, EvType, Working, make_sim, set_event_sink, sim_event,
  fill_event, schedule, deliver, poll,
}
use delta_assignment.SimulatedExchange.Placing.{sim_place_order}
use delta_assignment.SimulatedExchange.Delivery.{
  IsOrdered, due, later, count, deliver_list, schedule_all, poll-schedule_all,
}
use delta_assignment.SimulatedExchange.Booking.{deliver-again}

abbrev sim_config : SimConfig ℤ
sim_config = record {
  step_ns = pos 10;
  ack_latency_ns = pos 1;
  fill_latency_ns = pos 2;
  fill_gap_ns = pos 1;
  partial_chunks = pos 3;
  reject_prob = pos 0;
  unsolicited_cancel_prob = pos 0;
  duplicate_fill_prob = pos 1;
  reorder_fill_before_ack = false;
  start_connected = true;
}

abbrev nobody : Working
nobody = record {
  instrument = 0;
  side = Side.buy;
  size = pos 0;
  remaining = pos 0;
  price = pos 0;
  exchange_id = "";
  alive = false;
  seen_trades = [];
}

abbrev sim : SimulatedExchange ℤ ℕ
sim = set_event_sink (make_sim sim_config 0)

-- A probability of 0 never happens, and any other always.
abbrev certain : ℤ → ℕ → Bool × ℕ
certain p r = (not (eqb_ℤ p (pos 0)), r)

abbrev any_label : ℕ → String
any_label n = "SIM-1"

abbrev ten_shares : Order
ten_shares = record fresh_order {
  internal_id = 1;
  size = pos 10;
  limit_price = pos 50;
  instrument = 7;
}

abbrev placed : SimulatedExchange ℤ ℕ
placed = (sim_place_order certain any_label ten_shares sim).0

-- Three partial fills, each delivered twice, make ten.
position_after_poll : find_or (pos 0) 7 (poll placed).0.positions ≡ pos 10
unfolding sim_place_order schedule poll deliver quot ◌+ℤ◌ ◌-ℤ◌ ◌*ℤ◌
position_after_poll = refl

abbrev three_at_50 : ℕ → SimEvent
three_at_50 trade = fill_event 1 (pos 3) (pos 3) (pos 50) trade false

abbrev accepted : Working
accepted = find_or nobody 1 placed.working

-- The trade comes again after another trade of the order.
deliver-again_example :
    let y = (deliver (three_at_50 1) placed).0 in
    let z = (deliver_list (three_at_50 2 ∷ []) y).0 in
    (y.positions ≡ insert 7 (find_or (pos 0) 7 placed.positions +ℤ pos 3) placed.positions)
    × ((deliver (three_at_50 1) z).0.positions ≡ z.positions)
unfolding sim_place_order schedule ◌-ℤ◌ ◌+ℤ◌ quot
deliver-again_example =
    deliver-again (three_at_50 1) (three_at_50 1) (three_at_50 2 ∷ []) placed accepted refl refl
      refl refl refl refl refl refl

abbrev two_events : List SimEvent
two_events =
    sim_event EvType.confirm 1 (pos 12) RejectReason.unknown
    ∷ sim_event EvType.cancel_ack 1 (pos 5) RejectReason.unknown
    ∷ []

abbrev of_order : SimEvent → Bool
of_order e = e.id == 1

poll-schedule_all_example :
    let y = schedule_all two_events sim in
    let told = deliver_list (due (pos 0 +ℤ pos 10) y.queue) (record y { now = pos 0 +ℤ pos 10 }) in
    (poll y ≡ (record told.0 { queue = later (pos 0 +ℤ pos 10) y.queue }, told.1))
    × IsOrdered y.queue
    × (count of_order y.queue ≡ count of_order two_events)
poll-schedule_all_example = poll-schedule_all two_events sim of_order refl (λ e n. refl)
