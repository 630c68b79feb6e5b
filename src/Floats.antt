-- ===== src/Floats.antt =====
-- Python's `float`, which the language has no counterpart of: the type and the operations that the
-- tools use, `math.inf` among them, with no laws. Every statement about floats holds for any such operations.
pub mod Integers
use lca.Prelude.{Bool, ℤ}

pub record Floats : Type 1 where
  pub Float : Type 0
  pub of_int : ℤ → Float
  pub add : Float → Float → Float
  pub sub : Float → Float → Float
  pub mul : Float → Float → Float
  pub div : Float → Float → Float
  pub sqrt : Float → Float
  pub abs : Float → Float
  pub inf : Float
  pub lt : Float → Float → Bool
  pub eq : Float → Float → Bool
