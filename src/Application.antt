-- ===== src/Application.antt =====
-- packages/application/src: use cases, and what is put around them.
pub mod Idempotency
pub mod Mediator
mod Tests
