-- ===== src/Schema.antt =====
-- tools/power_trace_from_vcd.py: the JSON schema checker and the document it checks.
mod Defs
mod Document
mod Keywords
mod Places
mod Local
mod Inside
mod Everywhere
mod Sample
mod Contract
mod Refinement
mod Examples
unfoldable pub use Defs.*
pub use Document.*
pub use Places.*
pub use Refinement.*
pub use Everywhere.*
