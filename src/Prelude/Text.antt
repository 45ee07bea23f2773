-- ===== src/Prelude/Text.antt =====
-- Go strings as their bytes, with what the sources use of the packages `strings` and `path`.
mod Defs
pub mod Clean
pub mod Lines
pub mod Number
pub mod Sort
unfoldable pub use Defs.*
