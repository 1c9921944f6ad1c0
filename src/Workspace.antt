-- ===== src/Workspace.antt =====
-- src/boule/workspace.py: the event-sourced workspace of one problem. A participant or the
-- maintainer appends an event if the state that the log projects to authorizes it.
mod Fields
mod State
mod Project
mod Expiry
mod Status
mod Claims
mod Publish
mod Maintain
mod Authorize
mod Log
pub mod Clerk
mod Rule
mod Kinds
mod Accepted
mod Linked
mod Ageing
mod Counting
mod Candidates
mod Allowed
mod Feedback
mod Untouched
mod Claiming
pub mod Leases
mod Search
pub mod Adjudication
pub mod Resumption
pub mod Reading
mod Verdicts
pub mod Projecting
pub mod Totality
unfoldable pub use Fields.*
unfoldable pub use State.*
unfoldable pub use Project.*
unfoldable pub use Expiry.*
unfoldable pub use Status.*
unfoldable pub use Claims.*
unfoldable pub use Publish.*
unfoldable pub use Maintain.*
unfoldable pub use Authorize.*
unfoldable pub use Log.*
unfoldable pub use Clerk.*
