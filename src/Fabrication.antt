-- ===== src/Fabrication.antt =====
-- tools/validate_fabrication.py
mod Access
mod Release
mod Design
mod Pinout
mod Logical
mod Validate
mod Once
mod Accepted
mod Entries
mod ShellData
mod ReleaseData
mod PinoutData
mod LogicalData
mod PackageData
mod Examples
unfoldable pub use Access.*
unfoldable pub use Release.*
unfoldable pub use Design.*
unfoldable pub use Pinout.*
unfoldable pub use Logical.*
unfoldable pub use Validate.*
