-- ===== src/Execution/Dispatch.antt =====
-- AlgoFactory and AlgoDispatcher (include/oms/ExecutionAlgo.h, src/ExecutionAlgo.cpp). An algorithm stands
-- in its registration: each one is registered once.
use delta_assignment.Common.{
  ℕ, ◌<◌, ◌≡◌, String, List, [], ◌∷◌, map, Option, none, some, refl, ap, ◌∙◌, get_or,
  get_or-set_self, if◌then◌else◌,
}
use delta_assignment.Common.Int.{ℤ, pos, eqb_ℤ}
use delta_assignment.Order.{Order, OrderType, retrieve_int_data, fresh_order}
use delta_assignment.OrderId.{OrderIdRaw}
use delta_assignment.OrderManager.Types.{OrderEvent, OrderEventKind}
use delta_assignment.OrderManager.State.{OrderManager, find}
use delta_assignment.OrderManager.Submit.{request_order}
use delta_assignment.Execution.{AlgoConfig, AlgoBase, on_fill, forget_child, child_request}
use delta_assignment.Execution.Twap.{TwapAlgo, make_twap}
use delta_assignment.Execution.Pov.{PovAlgo, make_pov, pov_on_fill, pov_forget}
use text.Mathlib.Text.{◌==◌}

pub data ExecutionAlgo (W : Type 0) : Type 0 where
  twap : TwapAlgo W → ExecutionAlgo W
  pov : PovAlgo W → ExecutionAlgo W

pub record Reg (W : Type 0) : Type 0 where
  pub algo : ExecutionAlgo W
  pub offset : ℕ
  pub index : ℤ

module _ {W : Type 0} where
  -- AlgoFactory::create
  unfoldable pub create : String → AlgoConfig W → ExecutionAlgo W
  create type cfg =
      if type == "twap"
      then ExecutionAlgo.twap (make_twap cfg)
      else if type == "pov"
      then ExecutionAlgo.pov (make_pov cfg)
      else ExecutionAlgo.twap (make_twap cfg)

  -- The calls of on_fill, on_reject and on_cancel on an algorithm of either type.
  abbrev pub algo_on_fill : Order → ℤ → ExecutionAlgo W → ExecutionAlgo W
  algo_on_fill o qty (ExecutionAlgo.twap t) =
      ExecutionAlgo.twap (record t { base = on_fill t.base o qty })
  algo_on_fill o qty (ExecutionAlgo.pov p) = ExecutionAlgo.pov (pov_on_fill p o qty)

  abbrev pub algo_forget : Order → ExecutionAlgo W → ExecutionAlgo W
  algo_forget o (ExecutionAlgo.twap t) =
      ExecutionAlgo.twap (record t { base = forget_child t.base o })
  algo_forget o (ExecutionAlgo.pov p) = ExecutionAlgo.pov (pov_forget p o)

  -- The switch of AlgoDispatcher::on_order_event.
  abbrev pub tell_algo : OrderEventKind → ℤ → Order → ExecutionAlgo W → ExecutionAlgo W
  tell_algo OrderEventKind.partial_fill qty o a = algo_on_fill o qty a
  tell_algo OrderEventKind.fill qty o a = algo_on_fill o qty a
  tell_algo OrderEventKind.rejected qty o a = algo_forget o a
  tell_algo OrderEventKind.cancelled qty o a = algo_forget o a
  tell_algo OrderEventKind.unsolicited_cancel qty o a = algo_forget o a
  tell_algo OrderEventKind.confirmed qty o a = a

  -- The body of its loop.
  abbrev pub dispatch : OrderEvent → Order → Reg W → Reg W
  dispatch e o r =
      if eqb_ℤ (retrieve_int_data o r.offset) r.index
      then record r { algo = tell_algo e.kind e.last_qty o r.algo }
      else r

  -- Nothing is told of an order that is not found.
  abbrev pub dispatch_found : OrderEvent → Option Order → List (Reg W) → List (Reg W)
  dispatch_found e none regs = regs
  dispatch_found e (some o) regs = map (dispatch e o) regs

  -- AlgoDispatcher::on_order_event
  unfoldable pub on_order_event : OrderManager → OrderEvent → List (Reg W) → List (Reg W)
  on_order_event om e regs = dispatch_found e (find om e.internal_id) regs

  abbrev pub AllAt : ℕ → List (Reg W) → Type 0
  AllAt offset [] = Unit {0}
  AllAt offset (r ∷ regs) = (r.offset ≡ offset) × AllAt offset regs

  -- The event told to the algorithm that registered an index, and to no other.
  abbrev pub tell_index : ℤ → OrderEvent → Order → Reg W → Reg W
  tell_index index e o r =
      if eqb_ℤ index r.index then record r { algo = tell_algo e.kind e.last_qty o r.algo } else r

  dispatch-tell_index :
      (e : OrderEvent) (o : Order) (offset : ℕ) (index : ℤ) (regs : List (Reg W))
      → retrieve_int_data o offset ≡ index
      → AllAt offset regs
      → map (dispatch e o) regs ≡ map (tell_index index e o) regs
  dispatch-tell_index e o offset index [] h a = refl
  dispatch-tell_index e o offset index (r ∷ regs) h (at, a) =
      let same : retrieve_int_data o r.offset ≡ index = ap (retrieve_int_data o) at ∙ h in
      let one : dispatch e o r ≡ tell_index index e o r =
        ap
          (λ (i : ℤ).
            if eqb_ℤ i r.index then record r { algo = tell_algo e.kind e.last_qty o r.algo } else r)
          same in
      rw (one, dispatch-tell_index e o offset index regs h a) refl

  -- An event of a child order reaches the algorithm that sent it and no other: where the order
  -- still has the scratch data that its submission wrote and every algorithm uses the sender's
  -- scratch slot, the event is told exactly to those that registered the sender's index.
  pub on_order_event-owner :
      (om : OrderManager) (e : OrderEvent) (o : Order) (regs : List (Reg W)) (b : AlgoBase W)
      (qty price now : ℤ) (type : OrderType) (id : OrderIdRaw)
      → find om e.internal_id ≡ some o
      → o.int_data ≡ (request_order (child_request b qty price type) id now fresh_order).int_data
      → b.config.worker_offset < 4
      → AllAt b.config.worker_offset regs
      → on_order_event om e regs ≡ map (tell_index b.config.worker_index e o) regs
  unfolding on_order_event
  on_order_event-owner om e o regs b qty price now type id found written small a =
      let read : retrieve_int_data o b.config.worker_offset ≡ b.config.worker_index =
        ap (λ (xs : List ℤ). get_or xs b.config.worker_offset (pos 0)) written
        ∙ get_or-set_self fresh_order.int_data b.config.worker_offset b.config.worker_index (pos 0)
            small in
      ap (λ (x : Option Order). dispatch_found e x regs) found
      ∙ dispatch-tell_index e o b.config.worker_offset b.config.worker_index regs read a
