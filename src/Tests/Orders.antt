-- ===== src/Tests/Orders.antt =====
-- Runs of the order manager with a pool of two slots and one venue that answers every send with Ok.
use delta_assignment.Common.{
  bump, ℕ, ◌^◌, ◌<◌, ◌≡◌, ◌≢◌, refl, sym, ◌∙◌, [], ◌∷◌, some, true, false, arith,
}
use delta_assignment.Common.Int.{ℤ, pos, ◌-ℤ◌}
use delta_assignment.OrderId.{OrderIdRaw, encode_order_id, decode_order_id}
use delta_assignment.Order.{Side, OrderType}
use delta_assignment.Pool.{make_pool, acquire, is_current}
use delta_assignment.OrderManager.Types.{Client, Env, OrderRequest, SendResult, ValidationResult}
use delta_assignment.OrderManager.State.{OrderManager, make_order_manager, execution_delta}
use delta_assignment.OrderManager.Guards.{validate, validate_fill}
use delta_assignment.OrderManager.Submit.{submit, submit_to, place, reserve, settle_send}
use delta_assignment.OrderManager.Events.{on_fill, fill_context}
use delta_assignment.OrderManager.Consistency.{IsConsistent}
use delta_assignment.OrderManager.Invariant.{IsGenuine}
use delta_assignment.OrderManager.Retire.{IsSound}
use delta_assignment.OrderManager.Admission.{submit-IsSound}
use delta_assignment.OrderManager.Fill.{on_fill-IsSound}
use delta_assignment.OrderManager.FillLaws.{FillIsBooked, on_fill-FillIsBooked}
use delta_assignment.OrderManager.Delta.{IsUntouched, execution_delta-on_fill, on_fill-refused}
use delta_assignment.OrderManager.Redelivery.{Fill, fill_all, validate-fill_all}
use delta_assignment.OrderManager.History.{
  make_order_manager-IsConsistent, Step, Reach, Reach-IsConsistent,
}

abbrev all_ok : Client
all_ok = record {
  is_connected = true;
  place_order = λ o. SendResult.ok;
  cancel_order = λ id exch. SendResult.ok;
}

abbrev pub one_venue : Env
one_venue = record {
  select = λ inst side qty. some 0;
  registry = record { by_venue = some all_ok ∷ []; count = 1 };
  now = pos 100;
}

-- Buy 10 of instrument 7 at 50.
abbrev buy_ten : OrderRequest
buy_ten = record {
  instrument = 7;
  side = Side.buy;
  size = pos 10;
  price = pos 50;
  type = OrderType.limit;
  strategy_id = 1;
  algo_tag = 0;
  worker_index = pos 0;
  worker_offset = 0;
  reconciliation = false;
}

abbrev pub idle : OrderManager
idle = make_order_manager 2

abbrev pub working : OrderManager
working = (submit one_venue idle buy_ten).0

abbrev first_id : OrderIdRaw
first_id = 1

-- The first order of the venue: its sequence number is 1.
first_order : (submit one_venue idle buy_ten).1 ≡ first_id
unfolding submit submit_to place reserve settle_send make_order_manager make_pool acquire
    encode_order_id decode_order_id
first_order = refl

byte : (v : ℕ) → one_venue.select 7 Side.buy (pos 10) ≡ some v → v < 2 ^ 8
byte v e = ground arith

idle-IsConsistent : IsConsistent idle
idle-IsConsistent = make_order_manager-IsConsistent 2 (omega arith) (omega arith)

submit-IsSound_example : IsSound idle (submit one_venue idle buy_ten).0
submit-IsSound_example = submit-IsSound one_venue idle buy_ten idle-IsConsistent (omega arith) byte

pub working-IsConsistent : IsConsistent working
working-IsConsistent =
    (submit-IsSound one_venue idle buy_ten idle-IsConsistent (omega arith) byte).0

working-IsGenuine : IsGenuine working first_id
unfolding submit submit_to place reserve settle_send make_order_manager make_pool acquire
    encode_order_id decode_order_id
working-IsGenuine = λ h. refl

fill_of_four : validate working first_id (fill_context 1 (pos 4) (pos 49)) ≡ ValidationResult.ok
unfolding submit submit_to place reserve settle_send make_order_manager make_pool acquire
    encode_order_id decode_order_id validate validate_fill is_current ◌-ℤ◌
fill_of_four = refl

-- A fill of more than the order has left does not validate.
fill_of_too_many :
    validate working first_id (fill_context 1 (pos 11) (pos 49)) ≡ ValidationResult.field_mismatch
unfolding submit submit_to place reserve settle_send make_order_manager make_pool acquire
    encode_order_id decode_order_id validate validate_fill is_current ◌-ℤ◌
fill_of_too_many = refl

mismatch≢ok : ValidationResult.field_mismatch ≢ ValidationResult.ok
mismatch≢ok e = cc

fill_of_eleven : validate working first_id (fill_context 1 (pos 11) (pos 49)) ≢ ValidationResult.ok
fill_of_eleven e = mismatch≢ok (sym fill_of_too_many ∙ e)

-- Submit, fill 4, fill 6: a history.
filled : Reach idle (on_fill working first_id (pos 4) (pos 49) 1 (pos 200))
filled =
    Reach.next (Reach.next Reach.here (Step.submits one_venue buy_ten (omega arith) byte))
      (Step.fills first_id (pos 4) (pos 49) 1 (pos 200) working-IsGenuine)

Reach-IsConsistent_example :
    let om = on_fill working first_id (pos 4) (pos 49) 1 (pos 200) in
    IsConsistent om × (om.stopped ≡ false)
Reach-IsConsistent_example = Reach-IsConsistent 2 (omega arith) (omega arith) filled

on_fill-IsSound_example : IsSound working (on_fill working first_id (pos 4) (pos 49) 1 (pos 200))
on_fill-IsSound_example =
    on_fill-IsSound working first_id (pos 4) (pos 49) 1 (pos 200) working-IsConsistent
      working-IsGenuine

on_fill-FillIsBooked_example :
    FillIsBooked working first_id
      (pos 4)
      (pos 49)
      (pos 200)
      (on_fill working first_id (pos 4) (pos 49) 1 (pos 200))
on_fill-FillIsBooked_example =
    on_fill-FillIsBooked working first_id (pos 4) (pos 49) 1 (pos 200) fill_of_four

execution_delta-on_fill_example :
    execution_delta (on_fill working first_id (pos 4) (pos 49) 1 (pos 200)) 7 (pos 12)
    ≡ execution_delta working 7 (pos 12)
execution_delta-on_fill_example =
    execution_delta-on_fill working first_id (pos 4) (pos 49) 1 (pos 200) 7 (pos 12) fill_of_four

abbrev fill_of : ℤ → ℕ → Fill
fill_of qty trade = record { id = first_id; qty = qty; price = pos 49; trade = trade; ts = pos 200 }

-- The trade 1 comes again after the trade 2 of the order.
validate-fill_all_example :
    validate
      (fill_all (fill_of (pos 4) 1 ∷ fill_of (pos 3) 2 ∷ []) working)
      first_id
      (fill_context 1 (pos 2) (pos 50))
    ≢ ValidationResult.ok
validate-fill_all_example =
    validate-fill_all working (fill_of (pos 4) 1) (fill_of (pos 3) 2 ∷ []) (pos 2) (pos 50)
      working-IsConsistent.pool_valid fill_of_four

on_fill-refused_example :
    let om = on_fill working first_id (pos 11) (pos 49) 1 (pos 200) in
    IsUntouched working om × (om.oos_dropped_count ≡ bump working.oos_dropped_count)
on_fill-refused_example =
    on_fill-refused working first_id (pos 11) (pos 49) 1 (pos 200) fill_of_eleven
