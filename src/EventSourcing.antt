-- ===== src/EventSourcing.antt =====
-- packages/eventsourcing/src: event streams, and aggregates rebuilt from them.
pub mod Store
pub mod Aggregate
pub mod Reload
mod Tests
