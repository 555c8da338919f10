-- ===== src/FilePath.antt =====
-- The functions of Go's `path/filepath` that gonic calls, on Unix paths.
mod Defs
mod Laws
mod Within
mod Elements
mod Relative
mod Below
mod Folders
mod Relatives
unfoldable pub use Defs.*
unfoldable pub use Laws.*
unfoldable pub use Within.*
unfoldable pub use Elements.*
pub use Relative.*
pub use Below.*
pub use Folders.*
pub use Relatives.*
