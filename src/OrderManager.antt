-- ===== src/OrderManager.antt =====
-- include/oms/OrderManager.h and src/OrderManager.cpp: the order manager. `Types` and `State` hold its
-- data, `Guards` the shared helpers, `Submit`, `Events` and `Timeouts` its operations; the other
-- children prove.
pub mod Types
pub mod State
pub mod Guards
pub mod Submit
pub mod Events
pub mod Consistency
pub mod LiveIndex
pub mod Transitions
pub mod Retire
pub mod Invariant
pub mod Fill
pub mod Cancelling
pub mod Admission
pub mod History
pub mod FillLaws
pub mod Delta
pub mod Replay
pub mod Redelivery
pub mod Unfilled
