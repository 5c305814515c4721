-- ===== src/Realtime.antt =====
-- packages/websocket/src: the rooms of a server's connections, and a client that reconnects.
pub mod Rooms
pub mod Reconnection
mod Tests
