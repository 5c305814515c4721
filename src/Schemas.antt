-- ===== src/Schemas.antt =====
-- packages/schema-registry/src: the registry of the schemas of events.
pub mod Registry
mod Tests
