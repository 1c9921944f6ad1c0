-- ===== src/Remote.antt =====
-- src/boule/remote_protocol.py: signed envelopes, and the clerk's receipts, snapshots and chain
-- proofs.
mod Checks
mod Envelopes
mod Receipts
mod Snapshots
mod Chains
mod Signed
mod Linking
pub mod Agreed
pub mod Admitted
pub mod Digests
pub mod Building
pub mod Receipted
pub mod Snapped
pub mod Proofs
mod Runs
pub mod Extended
pub mod Joins
unfoldable pub use Checks.*
unfoldable pub use Envelopes.*
unfoldable pub use Receipts.*
unfoldable pub use Snapshots.*
unfoldable pub use Chains.*
