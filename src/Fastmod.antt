-- ===== src/Fastmod.antt =====
-- model/fastmod.py
mod Defs
mod Select
mod Kem
mod KemReduction
mod Dsa
mod Requests
mod Examples
pub use Kem.*
pub use KemReduction.*
pub use Dsa.*
pub use Requests.*
unfoldable pub use Defs.*
