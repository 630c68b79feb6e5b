-- ===== src/Prelude/Modular.antt =====
-- Remainders by an arbitrary modulus: what may be reduced early inside sums and products.
use Prim.Native.Nat.{ℕ, suc, ◌+◌, ◌*◌, ◌/◌, ◌%◌, ◌^◌, ◌<◌}
use mathlib.Core.Path.{◌≡◌, sym, ap, ◌∙◌}
use native.Mathlib.Nat.{
  pow-suc, one-le-pow, mod-eq_of_lt, mod-add-mod, add-mod-mod, add-mul-mod_self_right, div-add-mod',
  mod-lt, mul_comm,
}
use native.Mathlib.Omega.{arith}

-- Two numbers that differ by a multiple of `q` have the same remainder.
pub mod-eq_of_shift : (x y t q : ℕ) → x ≡ y + t * q → x % q ≡ y % q
mod-eq_of_shift x y t q h = rw h (add-mul-mod_self_right y t q)

-- A number below `q` that differs from `x` by a multiple of `q` is the remainder of `x`.
pub mod_unique : (x y t q : ℕ) → x ≡ y + t * q → y < q → x % q ≡ y
mod_unique x y t q h small = mod-eq_of_shift x y t q h ∙ mod-eq_of_lt small

pub mod-mul_left : (a b q : ℕ) → a % q * b % q ≡ a * b % q
mod-mul_left a b q = sym (
    mod-eq_of_shift (a * b) (a % q * b) (a / q * b) q
      (omega (arith, ap (λ (t : ℕ). t * b) (div-add-mod' a q))))

pub mod-mul_right : (a b q : ℕ) → a * (b % q) % q ≡ a * b % q
mod-mul_right a b q =
    rw (mul_comm a (b % q)) (mod-mul_left b a q ∙ ap (λ (t : ℕ). t % q) (mul_comm b a))

-- Both summands and the left factor may be reduced before the product is added.
pub mod-add-mul_mod : (p m k q : ℕ) → (p % q + m % q * k) % q ≡ (p + m * k) % q
mod-add-mul_mod p m k q =
    mod-add-mod p q (m % q * k)
    ∙ sym (add-mod-mod p (m % q * k) q)
    ∙ ap (λ (t : ℕ). (p + t) % q) (mod-mul_left m k q)
    ∙ add-mod-mod p (m * k) q

-- The low `k + 1` binary digits are the last digit and the low `k` digits of the half.
pub mod_pow_suc : (k a : ℕ) → a % 2 ^ suc k ≡ 2 * (a / 2 % 2 ^ k) + a % 2
mod_pow_suc k a =
    mod_unique a (2 * (a / 2 % 2 ^ k) + a % 2) (a / 2 / 2 ^ k) (2 ^ suc k)
      (omega (
        arith,
        pow-suc 2 k,
        div-add-mod' (a / 2) (2 ^ k),
        ap (λ (t : ℕ). a / 2 / 2 ^ k * t) (pow-suc 2 k),
      ))
      (omega (arith, pow-suc 2 k, mod-lt (a / 2) (one-le-pow k 2 (omega arith))))
