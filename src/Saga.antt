-- ===== src/Saga.antt =====
-- packages/saga: transactions with compensations, and what observes and stores them.
pub mod Transaction
pub mod Choreography
pub mod Store
pub mod Monitor
mod Tests
