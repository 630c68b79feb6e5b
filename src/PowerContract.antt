-- ===== src/PowerContract.antt =====
-- model/power_contract.py
mod Defs
mod Validity
mod Examples
unfoldable pub use Defs.*
pub use Validity.*
