-- ===== src/Model.antt =====
-- src/boule/model.py: the validators of what signed events carry. A validator raises, or returns
-- the value read into a record, which keeps the JSON as `raw` where the program hashes it later.
mod Fields
mod Cases
mod Records
mod Ballots
pub mod Controllers
pub mod Bounds
unfoldable pub use Fields.*
unfoldable pub use Cases.*
unfoldable pub use Records.*
unfoldable pub use Ballots.*
