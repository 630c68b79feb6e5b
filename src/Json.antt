-- ===== src/Json.antt =====
-- JSON documents as `json.loads` gives them, with Python's equality and order on them.
mod Defs
unfoldable pub use Defs.*
