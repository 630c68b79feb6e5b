-- ===== src/SramArea.antt =====
-- tools/sram_area.py
mod Macros
mod OpenRam
mod Others
mod Plan
mod Tiling
mod Envelope
mod Report
mod Entries
mod Listing
mod Check
mod Checked
mod Examples
unfoldable pub use Macros.*
pub use OpenRam.*
pub use Others.*
unfoldable pub use Plan.*
