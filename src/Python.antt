-- ===== src/Python.antt =====
-- What the program uses of Python: exceptions, JSON values, dicts, text and sorting.
mod Exceptions
mod Dicts
mod Json
mod Texts
mod Sorting
pub use Exceptions.*
unfoldable pub use Dicts.*
unfoldable pub use Json.*
unfoldable pub use Texts.*
unfoldable pub use Sorting.*
