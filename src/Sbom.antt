-- ===== src/Sbom.antt =====
-- tools/gen_sbom.py
mod Entry
mod Gitmodules
mod Npm
mod Collect
mod Hardware
mod Submodules
mod Workflows
mod Document
mod Sorting
mod Closed
mod Examples
unfoldable pub use Entry.*
unfoldable pub use Gitmodules.*
unfoldable pub use Npm.*
unfoldable pub use Collect.*
unfoldable pub use Hardware.*
unfoldable pub use Submodules.*
unfoldable pub use Workflows.*
unfoldable pub use Document.*
pub use Closed.*
