-- ===== src/Streams.antt =====
-- packages/streams/src: hot streams, the operators on them, and the bounded queue.
pub mod EventStream
pub mod Queue
pub mod Operators
pub mod Windows
pub mod Merger
mod Tests
