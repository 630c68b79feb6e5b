-- ===== src/Reference.antt =====
-- model/reference.py
mod Defs
mod Multiply
mod Butterflies
mod Inverse
mod Commands
mod Examples
pub use Multiply.*
pub use Butterflies.*
pub use Inverse.*
pub use Commands.*
unfoldable pub use Defs.*
