-- ===== src/Activity.antt =====
-- The activity computation of tools/power_trace_from_vcd.py.
mod Defs
mod Sampling
mod Hamming
mod Cycles
mod Examples
unfoldable pub use Defs.*
unfoldable pub use Sampling.*
pub use Hamming.*
unfoldable pub use Cycles.*
