-- ===== src/Trace.antt =====
-- The signal selection and the trace assembly of tools/power_trace_from_vcd.py.
mod Signals
mod Build
mod Generate
mod Distinct
mod Considered
mod Selection
mod Resolve
mod Pipeline
mod Rounding
mod Valid
mod Examples
unfoldable pub use Signals.*
unfoldable pub use Build.*
unfoldable pub use Generate.*
