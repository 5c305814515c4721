-- ===== src/Outbox.antt =====
-- packages/outbox: messages stored with the business data, relayed to a publisher, and received
-- once. The relay works on the outbox store through its port's operations.
pub mod Store
pub mod Inbox
pub mod Relay
mod Tests
