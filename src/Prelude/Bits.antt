-- ===== src/Prelude/Bits.antt =====
-- A mask of low bits is a remainder, at every width; the proof goes down the binary digits.
use Prim.Native.Nat.{
  ℕ, zero, suc, ◌+◌, ◌-◌, ◌*◌, ◌/◌, ◌%◌, ◌^◌, ◌≤◌, min, bit_and, digits, bit_and-bitwise,
}
use mathlib.Core.Path.{◌≡◌, refl, ap}
use native.Mathlib.Nat.{pow-suc, one-le-pow}
use native.Mathlib.Omega.{arith}
use lca.Prelude.Modular.{mod_pow_suc}
use lca.Prelude.Int.{ℤ, pos, negsuc, and_ℤ, mod_ℤ}

abbrev and_rounds : ℕ → ℕ → ℕ → ℕ
and_rounds = digits (λ _. zero) min

-- Rounds beyond the number of digits change nothing.
and_rounds_enough : (f g a b : ℕ) → a ≤ f → a ≤ g → and_rounds f a b ≡ and_rounds g a b
and_rounds_enough zero zero a b p q = refl
and_rounds_enough (suc f) zero zero b p q = refl
and_rounds_enough (suc f) zero (suc a) b p q = absurd (omega arith)
and_rounds_enough zero (suc g) zero b p q = refl
and_rounds_enough zero (suc g) (suc a) b p q = absurd (omega arith)
and_rounds_enough (suc f) (suc g) zero b p q = refl
and_rounds_enough (suc f) (suc g) (suc a) b p q =
    omega (arith, and_rounds_enough f g (suc a / 2) (b / 2) (omega arith) (omega arith))

zero-bit_and : (b : ℕ) → bit_and 0 b ≡ 0
zero-bit_and b = bit_and-bitwise 0 b

-- The equation for the lowest digit.
pub bit_and_low : (a b : ℕ) → bit_and a b ≡ 2 * bit_and (a / 2) (b / 2) + min (a % 2) (b % 2)
bit_and_low zero b = omega (arith, zero-bit_and b, zero-bit_and (b / 2))
bit_and_low (suc a) b = omega (
  arith,
  bit_and-bitwise (suc a) b,
  bit_and-bitwise (suc a / 2) (b / 2),
  and_rounds_enough a (suc a / 2) (suc a / 2) (b / 2) (omega arith) (omega arith),
)

bit_and-zero_rounds : (f a : ℕ) → a ≤ f → bit_and a 0 ≡ 0
bit_and-zero_rounds f zero h = zero-bit_and 0
bit_and-zero_rounds zero (suc a) h = absurd (omega arith)
bit_and-zero_rounds (suc f) (suc a) h =
    omega (arith, bit_and_low (suc a) 0, bit_and-zero_rounds f (suc a / 2) (omega arith))

pub bit_and-zero : (a : ℕ) → bit_and a 0 ≡ 0
bit_and-zero a = bit_and-zero_rounds a a (omega arith)

-- `a & ((1 << k) - 1)` is `a % 2 ** k`.
pub bit_and_mask : (k a : ℕ) → bit_and a (2 ^ k - 1) ≡ a % 2 ^ k
bit_and_mask zero a = omega (arith, bit_and-zero a)
bit_and_mask (suc k) a = ground (
  arith,
  bit_and_low a (2 ^ suc k - 1),
  pow-suc 2 k,
  one-le-pow k 2,
  mod_pow_suc k a,
  bit_and_mask k (a / 2),
)

-- The same of Python's `&` on any integer, negative ones included.
pub and_mask : (v : ℤ) (k : ℕ) → and_ℤ v (pos (2 ^ k - 1)) ≡ mod_ℤ v (2 ^ k)
unfolding and_ℤ
and_mask (pos n) k = ap pos (bit_and_mask k n)
and_mask (negsuc n) k = ground (arith, bit_and_mask k n)
