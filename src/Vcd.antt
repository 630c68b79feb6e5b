-- ===== src/Vcd.antt =====
-- tools/power_trace_from_vcd.py
mod Defs
mod Sections
mod Parse
mod Header
mod Blocks
mod WellFormed
mod Examples
unfoldable pub use Defs.*
unfoldable pub use Sections.*
unfoldable pub use Parse.*
pub use WellFormed.*
pub use Blocks.*
