-- ===== src/Moderation.antt =====
-- src/boule/moderation.py: reviewer selection, ballot commitments and the aggregation of ballots.
mod Select
mod Aggregate
pub mod Allocation
pub mod Quorum
pub mod Panel
unfoldable pub use Select.*
unfoldable pub use Aggregate.*
