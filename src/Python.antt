-- ===== src/Python.antt =====
-- What the sources use of Python: texts and bytes, exceptions, methods that mutate an object,
-- integers in byte strings.
mod Actions
mod Struct
pub mod Results
pub mod Sets
pub mod Keeps
pub mod Texts
pub mod Utf8
pub mod Decimals
pub use Actions.*
unfoldable pub use Struct.*
