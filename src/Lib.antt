-- ===== src/Lib.antt =====
-- The order management system: its order manager with the order pool and the packed order ids under it,
-- the gate through which target signals enter, the health model and the router that choose a venue, the
-- netting of strategies, and the execution algorithms that work a parent order.
--
-- The parts and how they interact. A caller asks the order manager to submit an order. The router
-- (an interface, a parameter of the manager) chooses a venue, the registry finds its client, the pool gives a slot
-- and the id packs venue, generation of the slot, slot and sequence. Clients answer later with events
-- (confirm, fill, reject, cancel-ack, unsolicited cancel); each passes one validation, changes the
-- order, the position and the pending quantity of its instrument, and is published to listeners.
-- A terminal order leaves the live index at once and its slot only after a grace FIFO of 4096 orders.
-- The manager reports every send and answer to the health model, whose circuit breaker keeps a state per
-- venue; the router reads it. The netting engine turns the strategies' targets into one net order per
-- instrument and attributes the fills. An execution algorithm submits child orders to the manager; the
-- dispatcher takes the published events back to the algorithm by a tag on the order.
--
-- The files, by the code they model:
--   Common          shared names, Boolean tests, lists, integers, association lists, bit operations
--   OrderId         include/oms/OrderId.h (encode_order_id, decode_order_id)
--   Order           include/oms/Types.h and include/oms/Order.h
--   Position        include/oms/Position.h
--   Pool            include/oms/OrderPool.h and src/OrderPool.cpp
--   Registry        include/oms/ExchangeRegistry.h and src/ExchangeRegistry.cpp
--   OrderManager    include/oms/OrderManager.h and src/OrderManager.cpp; Types has the data that it
--                   exchanges (also of include/oms/ExchangeClient.h), State the fields and queries,
--                   Guards the shared helpers (validate, publish, retire), Submit the calls from the
--                   caller's side, Events the handlers; the other children are proofs
--   Signal          include/oms/Signal.h, src/Signal.cpp, and put and get of include/oms/Detail.h; Gate
--                   has SignalGate
--   Reconciliation  the StartupReconciler of include/oms/Reconciliation.h and src/Reconciliation.cpp
--   Periodic        its PeriodicReconciler, over OrderManager
--   Double          the interface of `double`, of which no arithmetic is assumed
--   RingBuffer      include/oms/RingBuffer.h
--   Health          include/oms/Health.h and src/Health.cpp: the state of a venue; Breaker has the venues
--                   by id, Counting, Dwell and Recovery are proofs
--   Router          include/oms/Router.h and src/Router.cpp
--   Netting         include/oms/Netting.h and src/Netting.cpp
--   Execution       include/oms/ExecutionAlgo.h and src/ExecutionAlgo.cpp: AlgoBase; Twap, Pov and
--                   Dispatch have the algorithms, the factory and the dispatcher, the others are proofs
--   Metrics         include/oms/Metrics.h and src/Metrics.cpp, and bps of include/oms/Detail.h
--   SimulatedExchange  sim/SimulatedExchange.h and sim/SimulatedExchange.cpp: deliveries and requests;
--                   Placing has place_order
--   Tests           runs on concrete input
--
-- How the code is translated. An operation is a function from the state, its arguments and, where the
-- code asks a client, the router or the clock, an environment `Env` with their answers; it returns the new
-- state. The environment of each call is arbitrary. Calls of listeners, of health and of clients are
-- recorded in the field `trace`, latest first; a published event carries what a listener would read of
-- the ledgers. Listeners that call the manager from inside `publish` are not modelled. A failed
-- assertion of the pool makes `acquire` and `release` return `none`, and sets `stopped` in the manager.
--
-- Numbers. Unsigned words are natural numbers with the wrap-around written out (generations modulo 2^16,
-- sequences and counters modulo 2^64, the id as 64 bits). Prices, quantities and times (int64_t) are
-- integers; their overflow, undefined behaviour in the code, is not modelled. Hash maps are association
-- lists and hash sets lists, visited in list order; an ordered set is sorted.
-- Each loop is structural recursion over a list or a count, but for the slices of a TWAP, which take the
-- number of slices not yet fired as fuel: each round fires one, and no slice is due when it is used up.
-- Numbers in floating point (rates, weights, percentiles) are of any type with the operations of Double.
--
-- Assumptions. Where a theorem about an event has a genuineness hypothesis, it says that an id which names
-- a live slot and its generation is the id of the order in the slot: the code compares no more than slot
-- and generation, so an id with another venue or sequence is taken for the order's. The
-- instruments of the netting engine have 16 bits, as their type says. The venue's weights are ordered as
-- doubles that are not NaN are where the router's choice depends on it.
--
-- Not modelled: text of log lines; the file that the metrics write; a client that answers a send or a
-- cancel before the call returns, and so changes an algorithm's children in the middle of a timer; the
-- seeded signal producer, the table of exchange factories and the demonstration programs.
pub mod Common
pub mod OrderId
pub mod Order
pub mod Position
pub mod Pool
pub mod Registry
pub mod OrderManager
pub mod Signal
pub mod Tests
pub mod Reconciliation
pub mod Periodic
pub mod Double
pub mod RingBuffer
pub mod Health
pub mod Router
pub mod Execution
pub mod Netting
pub mod Metrics
pub mod SimulatedExchange
