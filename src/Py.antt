-- ===== src/Py.antt =====
-- What the program's modules take from Python: the values that JSON carries, the exceptions that
-- the code raises, and the operations on dictionaries that may raise.
mod Values
mod Errors
mod Dicts
mod Texts
pub mod Exec
pub mod Raises
unfoldable pub use Values.*
unfoldable pub use Errors.*
unfoldable pub use Dicts.*
unfoldable pub use Texts.*
