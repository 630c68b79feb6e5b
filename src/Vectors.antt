-- ===== src/Vectors.antt =====
-- tools/gen_vectors.py
mod Defs
mod Corpus
mod Answers
mod Whole
mod Examples
unfoldable pub use Defs.*
pub use Corpus.*
pub use Whole.*
