-- ===== src/Stack/Handlers.antt =====
-- The handlers of an arriving segment, one for each state. The segment is the view over its bytes.
-- A handler that starts with `get_tcb` has its body, over the block it found, as a function of its
-- own.
mod Ending
mod Opening
mod Receiving
mod Finishing
pub mod Teardown
pub mod Payload
pub mod Acknowledgement
pub mod Transitions
pub mod PassiveOpen
unfoldable pub use Ending.*
unfoldable pub use Opening.*
unfoldable pub use Receiving.*
unfoldable pub use Finishing.*
