-- ===== src/Prelude/Difference.antt =====
-- The remainder of a difference of numbers: Python's `(a - x) % q` is counted down past zero.
use Prim.Native.Nat.{ℕ, zero, suc, ◌+◌, ◌-◌, ◌*◌, ◌/◌, ◌%◌, ◌≤◌, ◌<◌}
use mathlib.Core.Path.{◌≡◌, ap, ◌∙◌}
use mathlib.Core.Logic.{inl, inr}
use native.Mathlib.Nat.{mod-lt, mod-eq_of_lt, div-add-mod'}
use native.Mathlib.Omega.{arith}
use lca.Prelude.Tests.{leb, leb→le, Bool-cases}
use lca.Prelude.Int.{pos, ◌-ℤ◌, mod_ℤ}
use lca.Prelude.Modular.{mod_unique, mod-eq_of_shift}

sub_below : (a x q : ℕ) → a < q → x ≤ a → (a + q - x % q) % q ≡ (a - x) % q
sub_below a x q h le =
    mod-eq_of_shift (a + q - x % q) (a - x) 1 q
      (omega (arith, mod-eq_of_lt {n = x} {m = q} (omega arith)))

-- Past zero the remainder is counted down from `q`.
above_small : (a r k q : ℕ) → a < q → r ≤ a → (r + suc k * q - a - 1) % q ≡ q - 1 - (a - r)
above_small a r k q h le = mod_unique _ (q - 1 - (a - r)) k q (omega arith) (omega arith)

above_large : (a r k q : ℕ) → a < r → r < q → (r + k * q - a - 1) % q ≡ r - a - 1
above_large a r k q h lt = mod_unique _ (r - a - 1) k q (omega arith) (omega arith)

sub_above_parts :
    (a r k q : ℕ)
    → a < q
    → r < q
    → a < r + k * q
    → (a + q - r) % q ≡ q - 1 - (r + k * q - a - 1) % q
sub_above_parts a r zero q h lt gt = omega (
  arith,
  above_large a r 0 q (omega arith) lt,
  mod_unique (a + q - r) (a + q - r) 0 q (omega arith) (omega arith),
)
sub_above_parts a r (suc k) q h lt gt = elim (Bool-cases (leb r a)) [
  | inl le ↦ omega (
    arith,
    above_small a r k q h (leb→le r a le),
    mod_unique (a + q - r) (a - r) 1 q (omega (arith, leb→le r a le)) (omega arith),
  )
  | inr more ↦ omega (
    arith,
    above_large a r (suc k) q (ground arith) lt,
    mod_unique (a + q - r) (a + q - r) 0 q (omega arith) (ground arith),
  )
]

sub_above : (a x q : ℕ) → a < q → a < x → (a + q - x % q) % q ≡ q - 1 - (x - a - 1) % q
sub_above a x q h gt =
    let parts : x % q + x / q * q ≡ x = omega (arith, div-add-mod' x q) in
    sub_above_parts a (x % q) (x / q) q h (mod-lt x (omega arith)) (omega (arith, parts))
    ∙ ap (λ (t : ℕ). q - 1 - (t - a - 1) % q) parts

-- The difference of `a` and `x` in the field.
pub sub_reduced : (a x q : ℕ) → a < q → pos ((a + q - x % q) % q) ≡ mod_ℤ (pos a -ℤ pos x) q
unfolding ◌-ℤ◌
sub_reduced a x q h = ground (arith, sub_below a x q h, sub_above a x q h)
