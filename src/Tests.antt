-- ===== src/Tests.antt =====
-- Concrete runs: tests of the definitions and the theorems at examples.
pub mod Orders
pub mod Pools
pub mod Signals
pub mod Startup
pub mod Cycles
pub mod Thousandths
pub mod Venues
pub mod Algos
pub mod Nets
pub mod Reports
pub mod Exchanges
