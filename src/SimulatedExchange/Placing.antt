-- ===== src/SimulatedExchange/Placing.antt =====
-- SimulatedExchange::place_order (sim/SimulatedExchange.cpp). The random numbers are parameters: `draw` is a
-- std::bernoulli_distribution on the generator's state, and `label` gives the text of an exchange id.
use delta_assignment.Common.{
  ℕ, zero, suc, ◌+◌, ◌==◌, max, bump, Bool, true, ◌&&◌, String, [], if◌then◌else◌,
}
use delta_assignment.Common.Int.{ℤ, pos, pos_part, ◌+ℤ◌, ◌-ℤ◌, ◌*ℤ◌, leb_ℤ, quot}
use delta_assignment.Common.Dict.{insert}
use delta_assignment.Order.{Order}
use delta_assignment.OrderManager.Types.{SendResult, RejectReason}
use delta_assignment.SimulatedExchange.{
  EvType, Working, SimulatedExchange, fill_event, schedule, schedule_in,
}

-- What place_order notes of an order.
abbrev pub working_of : Order → String → Working
working_of o text = record {
  instrument = o.instrument;
  side = o.side;
  size = o.size;
  remaining = o.size;
  price = o.limit_price;
  exchange_id = text;
  alive = true;
  seen_trades = [];
}

module _ {W R : Type 0} (draw : W → R → Bool × R) (label : ℕ → String) where
  -- The time of a partial fill.
  abbrev pub fill_at : SimulatedExchange W R → ℕ → ℤ
  fill_at x i =
      if x.cfg.reorder_fill_before_ack && (i == 0)
      then x.now +ℤ x.cfg.ack_latency_ns -ℤ pos 1
      else x.now +ℤ x.cfg.fill_latency_ns +ℤ (pos i *ℤ x.cfg.fill_gap_ns)

  -- A partial fill, and perhaps its duplicate.
  abbrev pub schedule_fill : Order → ℕ → ℤ → Bool → SimulatedExchange W R → SimulatedExchange W R
  schedule_fill o i q last x =
      let at_ns = fill_at x i in
      let trade = bump x.trade_counter in
      let dup = draw x.cfg.duplicate_fill_prob x.rng in
      let once =
        schedule (fill_event o.internal_id at_ns q o.limit_price trade last)
          (record x { trade_counter = trade; rng = dup.1 }) in
      if dup.0
      then schedule (fill_event o.internal_id (at_ns +ℤ pos 1) q o.limit_price trade last) once
      else once

  -- The loop over the partial fills, with the number of those that are left.
  abbrev pub fill_loop : Order → ℤ → ℕ → ℕ → ℤ → SimulatedExchange W R → SimulatedExchange W R
  fill_loop o base zero i assigned x = x
  fill_loop o base (suc left) i assigned x =
      let q = if left == 0 then o.size -ℤ assigned else base in
      fill_loop o base left (i + 1) (assigned +ℤ q)
        (if leb_ℤ q (pos 0) then x else schedule_fill o i q (left == 0) x)

  abbrev pub schedule_fills : Order → SimulatedExchange W R → SimulatedExchange W R
  schedule_fills o x =
      let chunks = max 1 (pos_part x.cfg.partial_chunks) in
      fill_loop o (quot o.size (pos chunks)) chunks 0 (pos 0) x

  -- An accepted order is cancelled unasked, or filled.
  abbrev pub accept : Order → SimulatedExchange W R → SimulatedExchange W R
  accept o x =
      let unsol = draw x.cfg.unsolicited_cancel_prob x.rng in
      let confirmed =
        schedule_in x.cfg.ack_latency_ns EvType.confirm o.internal_id RejectReason.unknown
          (record x { rng = unsol.1 }) in
      if unsol.0
      then schedule_in (x.cfg.ack_latency_ns +ℤ x.cfg.fill_latency_ns) EvType.unsolicited
          o.internal_id RejectReason.unknown confirmed
      else schedule_fills o confirmed

  abbrev pub take_order : Order → SimulatedExchange W R → SimulatedExchange W R
  take_order o x =
      let n = bump x.exch_counter in
      let rejected = draw x.cfg.reject_prob x.rng in
      let noted = record x {
        exch_counter = n;
        rng = rejected.1;
        working = insert o.internal_id (working_of o (label n)) x.working;
      } in
      if rejected.0
      then schedule_in x.cfg.ack_latency_ns EvType.reject o.internal_id RejectReason.risk_limit
          noted
      else accept o noted

  -- SimulatedExchange::place_order
  unfoldable pub sim_place_order :
      Order → SimulatedExchange W R → SimulatedExchange W R × SendResult
  unfolding schedule
  sim_place_order o x =
      if x.connected then (take_order o x, SendResult.ok) else (x, SendResult.transport_down)
