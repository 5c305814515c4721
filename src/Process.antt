-- ===== src/Process.antt =====
-- packages/process-manager/src: long-running processes, their transitions, time-outs and store.
pub mod StateMachine
pub mod Timeouts
pub mod Store
pub mod Lifecycle
pub mod Monitor
mod Tests
