-- ===== src/Tables.antt =====
-- The three tables that route a segment to its socket.
pub mod Sockets
pub mod Listeners
pub mod Connections
pub mod Laws
mod Tests
