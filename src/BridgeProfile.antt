-- ===== src/BridgeProfile.antt =====
-- bench/bridge_profile.py
mod Defs
mod Totals
mod Examples
unfoldable pub use Defs.*
pub use Totals.*
