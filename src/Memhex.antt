-- ===== src/Memhex.antt =====
-- tools/bin_to_memhex.py
mod Defs
mod RoundTrip
mod Examples
unfoldable pub use Defs.*
pub use RoundTrip.*
