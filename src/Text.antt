-- ===== src/Text.antt =====
-- Python's `str` as the list of its code points, with the methods that the tools call. Lower-casing
-- and `int` go by ASCII letters and digits; white space and line ends are Python's.
mod Defs
mod Laws
mod Tests
unfoldable pub use Defs.*
pub use Laws.*
