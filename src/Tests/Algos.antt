-- ===== src/Tests/Algos.antt =====
-- Runs of the execution algorithms over the order manager of two slots.
use delta_assignment.Common.{
  ℕ, ◌-◌, ◌≤◌, ◌≡◌, ap, inl, refl, ◌==◌, List, [], ◌∷◌, map, some, false, arith,
}
use delta_assignment.Common.Int.{ℤ, pos, ◌+ℤ◌, ◌-ℤ◌, ◌*ℤ◌, quot, int_laws}
use delta_assignment.Common.Dict.{lookup}
use delta_assignment.OrderId.{encode_order_id, decode_order_id}
use delta_assignment.Order.{Side, Order, remaining, OrderStatus, OrderType, fresh_order}
use delta_assignment.Pool.{make_pool, acquire, is_current}
use delta_assignment.OrderManager.Types.{OrderEvent, OrderEventKind, RejectReason}
use delta_assignment.OrderManager.State.{OrderManager, make_order_manager, order_ref, find}
use delta_assignment.OrderManager.Submit.{
  submit, submit_to, place, reserve, settle_send, request_order, cancel,
}
use delta_assignment.Execution.{
  ParentOrder, AlgoConfig, cancel_ids, cross_price, ceil_div, child_request, inflight, note_child,
  send_child, on_fill, remaining_quantity,
}
use delta_assignment.Execution.Twap
use delta_assignment.Execution.Twap.{
  TwapAlgo, make_twap, slice_due, slice_size, fire_slice, fire_slices, deadline_cross,
}
use delta_assignment.Execution.Committed.{committed, WithinTarget}
use delta_assignment.Execution.Schedule.{fire_slices-stops}
use delta_assignment.Execution.Run.{Step, Run, start-WithinTarget}
use delta_assignment.Execution.Pov.{PovAlgo, make_pov, start_pov, pov_deadline_cross, pov_on_timer}
use delta_assignment.Execution.Participation.{
  PovWithin, pov_on_timer-PovWithin, pov_deadline_cross-committed,
}
use delta_assignment.Execution.Dispatch.{
  ExecutionAlgo, Reg, on_order_event, tell_index, on_order_event-owner,
}
use delta_assignment.SimulatedExchange.{no_book}
use delta_assignment.Tests.Orders.{one_venue, idle, working}
use delta_assignment.Tests.Thousandths.{thousandths}

abbrev algo_config : AlgoConfig ℤ
algo_config = record {
  mds = some (record { top_of_book = λ inst. no_book; volume_since = λ inst since. pos 50 });
  worker_offset = 2;
  worker_index = pos 9;
  algo_tag = 1;
  slices = pos 3;
  participation_rate = pos 100;
  min_volume_floor = pos 0;
  catch_up_threshold = pos 0;
  residual_twap_slices = pos 5;
}

-- Buy 10 of instrument 7 from 0 to 30, at 50.
abbrev parent_ten : ParentOrder
parent_ten = record {
  instrument = 7;
  side = Side.buy;
  qty = pos 10;
  start = pos 0;
  end = pos 30;
  limit = pos 50;
  strategy_id = 1;
}

abbrev started : TwapAlgo ℤ
started = Twap.start (make_twap algo_config) parent_ten

-- The timer at 0 fires one slice of ceil(10 / 3), and a fill of one unit comes.
abbrev after_timer : TwapAlgo ℤ
after_timer = (Twap.on_timer one_venue (pos 0) started (some idle)).0

first_slice : after_timer.base.children ≡ (1, pos 4) ∷ []
unfolding Twap.on_timer Twap.start fire_slices fire_slice slice_due slice_size ceil_div send_child
    note_child remaining_quantity submit submit_to place reserve settle_send make_order_manager
    make_pool acquire encode_order_id decode_order_id quot ◌-ℤ◌ ◌+ℤ◌ ◌*ℤ◌
first_slice = refl

abbrev one_filled : Order
one_filled = record fresh_order {
  internal_id = 1;
  size = pos 4;
  filled_size = pos 1;
  status = OrderStatus.partially_filled;
}

four_left : lookup one_filled.internal_id after_timer.base.children ≡ some (pos 4)
four_left = ap (lookup 1) first_slice

three_left : remaining one_filled ≡ pos 4 -ℤ pos 1
three_left = refl

start-WithinTarget_example :
    WithinTarget (record after_timer { base = on_fill after_timer.base one_filled (pos 1) }).base
start-WithinTarget_example =
    start-WithinTarget algo_config parent_ten
      (record after_timer { base = on_fill after_timer.base one_filled (pos 1) }) (omega arith)
      (Run.next (Run.next Run.here (Step.timer one_venue (pos 0) (some idle)))
        (Step.fill one_filled (pos 1) (pos 4) four_left (omega arith) three_left))

three_slices : started.n - started.slices_done ≤ 3
unfolding Twap.start
three_slices = omega arith

fire_slices-stops_example :
    slice_due (pos 15) (fire_slices one_venue (pos 15) 3 started (some idle)).0 ≡ false
fire_slices-stops_example = fire_slices-stops one_venue (pos 15) 3 started (some idle) three_slices

abbrev pov_started : PovAlgo ℤ
pov_started = start_pov (make_pov algo_config) parent_ten

-- The volume is 50, and the rate a tenth: a child of 5.
pov_on_timer-PovWithin_example :
    PovWithin (pov_on_timer one_venue (pos 5) pov_started (some idle)).0
pov_on_timer-PovWithin_example =
    pov_on_timer-PovWithin one_venue (pos 5) pov_started (some idle) refl
      (inl (refl, (tt, omega int_laws)))

-- A POV with a child of 4 in flight at its deadline.
abbrev pov_waiting : PovAlgo ℤ
pov_waiting = record pov_started { base = record pov_started.base { children = (1, pos 4) ∷ [] } }

abbrev cancelling : OrderManager
cancelling = cancel_ids one_venue (1 ∷ []) working

abbrev crossing : OrderManager × ℕ
crossing =
    submit one_venue cancelling (
      child_request pov_waiting.base (pos 10 -ℤ pos 0) (cross_price pov_waiting.base) OrderType.ioc)

crossing_id : crossing.1 ≡ 65538
unfolding submit submit_to place reserve settle_send make_order_manager make_pool acquire
    encode_order_id decode_order_id cancel is_current ◌-ℤ◌ ◌+ℤ◌
crossing_id = refl

pov_deadline_cross-committed_example :
    committed (pov_deadline_cross one_venue (pos 30) pov_waiting (some working)).0.base
    ≡ pov_waiting.base.parent.qty +ℤ inflight pov_waiting.base
pov_deadline_cross-committed_example =
    pov_deadline_cross-committed one_venue (pos 30) pov_waiting working refl refl (omega int_laws)
      (ap (λ (id : ℕ). id == 0) crossing_id)
      (ap (λ (id : ℕ). lookup id pov_waiting.base.children) crossing_id)

-- Ten are wanted and fourteen are committed.
fourteen : pov_waiting.base.parent.qty +ℤ inflight pov_waiting.base ≡ pos 14
unfolding ◌+ℤ◌
fourteen = refl

-- The first child of the TWAP, as the order manager has it.
abbrev first_child : OrderManager
first_child =
    (submit one_venue idle (child_request started.base (pos 4) (pos 50) OrderType.limit)).0

abbrev fill_event : OrderEvent
fill_event = record {
  kind = OrderEventKind.partial_fill;
  internal_id = 1;
  instrument = 7;
  side = Side.buy;
  last_qty = pos 1;
  last_price = pos 50;
  filled_size = pos 1;
  size = pos 4;
  status = OrderStatus.partially_filled;
  reason = RejectReason.unknown;
  ts = pos 6;
}

abbrev two_algos : List (Reg ℤ)
two_algos =
    record { algo = ExecutionAlgo.twap started; offset = 2; index = pos 9 }
    ∷ record { algo = ExecutionAlgo.pov pov_started; offset = 2; index = pos 4 }
    ∷ []

child_found : find first_child 1 ≡ some (order_ref first_child 1)
unfolding find submit submit_to place reserve settle_send make_order_manager make_pool acquire
    encode_order_id decode_order_id is_current
child_found = refl

child_written :
    (order_ref first_child 1).int_data
    ≡ (request_order
        (child_request started.base (pos 4) (pos 50) OrderType.limit)
        1
        (pos 100)
        fresh_order).int_data
unfolding submit submit_to place reserve settle_send make_order_manager make_pool acquire
    encode_order_id decode_order_id
child_written = refl

on_order_event-owner_example :
    on_order_event first_child fill_event two_algos
    ≡ map (tell_index (pos 9) fill_event (order_ref first_child 1)) two_algos
unfolding Twap.start
on_order_event-owner_example =
    on_order_event-owner first_child fill_event (order_ref first_child 1) two_algos started.base
      (pos 4) (pos 50) (pos 100) OrderType.limit 1 child_found child_written (omega arith)
      (refl, (refl, tt))
