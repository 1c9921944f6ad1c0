-- ===== src/Workspace/Clerk.antt =====
-- The clerk's side of src/boule/workspace.py: the log as its files hold it, and the envelopes, receipts
-- and proofs that it answers with.
mod Format
mod Entries
mod Contents
mod Load
mod Append
mod Reads
mod Formatting
pub mod Naming
mod Extending
mod Kept
mod Ordering
mod Admitting
mod Ordered
mod Loaded
mod Opened
pub mod Answers
pub mod Keeping
pub mod Repeated
pub mod Fetching
mod Requests
mod Proving
pub mod Proofs
pub mod Snapped
unfoldable pub use Format.*
unfoldable pub use Entries.*
unfoldable pub use Contents.*
unfoldable pub use Load.*
unfoldable pub use Append.*
