-- ===== src/Stack.antt =====
-- TcpStack.h and TcpStack.cpp: the stack. Its one thread, the daemon, runs `Daemon`, and the threads
-- of the sockets call `Close` and `Ports`. Each is a sequence of the steps modelled here.
pub mod State
pub mod Lookups
pub mod Invariant
pub mod Output
pub mod Delivery
pub mod Segments
pub mod Send
pub mod Ports
pub mod Handlers
pub mod Input
pub mod Daemon
pub mod Hooks
pub mod Close
mod Tests
