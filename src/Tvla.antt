-- ===== src/Tvla.antt =====
-- tools/tvla.py
mod Statistics
mod Assess
mod Columns
mod Points
mod Whole
mod Outcome
mod Report
mod Summary
mod Examples
unfoldable pub use Statistics.*
unfoldable pub use Assess.*
unfoldable pub use Report.*
pub use Points.*
pub use Whole.*
pub use Outcome.*
pub use Summary.*
