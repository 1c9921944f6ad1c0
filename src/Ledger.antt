-- ===== src/Ledger.antt =====
-- src/boule/ledger.py: the append-only ledger of signed events with clerk receipts. An entry is
-- the JSON object that the ledger writes; the ledger is the list of its entries.
mod Events
mod Chain
mod Verify
pub mod Verified
pub mod Appends
pub mod Creation
unfoldable pub use Events.*
unfoldable pub use Chain.*
unfoldable pub use Verify.*
