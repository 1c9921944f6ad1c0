-- ===== src/Protocol.antt =====
-- src/boule/protocol.py: the state machine that a ledger's entries drive, and the session that
-- appends to both.
mod State
mod Evidence
mod Review
mod Apply
mod Session
pub mod Steps
pub mod Phases
pub mod Reviews
pub mod Order
pub mod Atomic
pub mod Sync
unfoldable pub use State.*
unfoldable pub use Evidence.*
unfoldable pub use Review.*
unfoldable pub use Apply.*
unfoldable pub use Session.*
