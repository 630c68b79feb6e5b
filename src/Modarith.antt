-- ===== src/Modarith.antt =====
-- model/modarith.py
mod Defs
mod Steps
mod Multiply
mod Agreement
mod Rejection
mod Examples
pub use Steps.*
pub use Multiply.*
pub use Agreement.*
pub use Rejection.*
unfoldable pub use Defs.*
