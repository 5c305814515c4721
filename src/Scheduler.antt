-- ===== src/Scheduler.antt =====
-- packages/scheduler/src: jobs that are run on demand or by a timer.
pub mod Limiter
pub mod Registry
pub mod InMemory
pub mod Intervals
mod Tests
