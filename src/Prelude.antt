-- ===== src/Prelude.antt =====
-- The names that the modules of the development share: the libraries', passed on, and those of
-- the children, which hold tests, results, lists, integers and bit facts.
mod Tests
mod Results
mod Lists
mod Int
mod Modular
mod Difference
mod ShiftAdd
mod Bits
pub use Tests.*
pub use Results.*
pub use Lists.*
unfoldable pub use Int.*
pub use Modular.*
pub use Difference.*
pub use ShiftAdd.*
pub use Bits.*
pub use Prim.Native.Nat.{
  ℕ, zero, suc, ◌+◌, ◌-◌, ◌*◌, ◌/◌, ◌%◌, ◌^◌, ◌≤◌, ◌<◌, min, max, bit_and, bit_or, bit_xor,
}
pub use mathlib.Core.Path.{◌≡◌, refl, sym, ap, ◌∙◌, subst}
pub use mathlib.Core.Logic.{◌≢◌, ◌↔◌, ◌⊎◌, inl, inr}
pub use mathlib.Core.Bool.{Bool, true, false, not, ◌&&◌, ◌||◌}
pub use mathlib.Core.Option.{Option, none, some}
pub use mathlib.Core.List.{List, [], ◌∷◌, ◌++◌, map}
pub use native.Mathlib.Omega.{arith}
