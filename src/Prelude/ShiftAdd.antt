-- ===== src/Prelude/ShiftAdd.antt =====
-- What the shift-add multipliers share: one conditional subtraction, and the digits of a product.
use Prim.Native.Nat.{ℕ, suc, ◌+◌, ◌-◌, ◌*◌, ◌/◌, ◌%◌, ◌^◌, ◌<◌}
use mathlib.Core.Path.{◌≡◌, sym, ap, ◌∙◌}
use mathlib.Core.Logic.{inl, inr}
use mathlib.Core.Bool.{Bool, not}
use native.Mathlib.Omega.{arith}
use lca.Prelude.Tests.{leb, if◌then◌else◌, Bool-cases}
use lca.Prelude.Int.{pos, and_ℤ, ◌==ℤ◌}
use lca.Prelude.Modular.{mod_unique, mod-add-mul_mod, mod_pow_suc}
use lca.Prelude.Bits.{bit_and_mask}

-- One conditional subtraction reduces a sum of two residues.
pub cond_sub_mod : (t q : ℕ) → t < q + q → (if leb q t then t - q else t) ≡ t % q
cond_sub_mod t q h = elim (Bool-cases (leb q t)) [
  | inl over ↦ rw over (sym (mod_unique t (t - q) 1 q (ground arith) (ground arith)))
  | inr under ↦ rw under (sym (mod_unique t t 0 q (omega arith) (ground arith)))
]

-- `multiplier & 1`, as a condition
abbrev pub odd : ℕ → Bool
odd k = not (and_ℤ (pos k) (pos 1) ==ℤ pos 0)

pub odd_digit : (k : ℕ) → (if odd k then 1 else 0) ≡ k % 2
unfolding and_ℤ
odd_digit k = ground (arith, bit_and_mask 1 k)

-- The product by all low digits, split at the last one.
pub digits_of_product :
    (p m k rounds q : ℕ)
    → ((p + m * (k % 2)) % q + (m + m) % q * (k / 2 % 2 ^ rounds)) % q
      ≡ (p + m * (k % 2 ^ suc rounds)) % q
digits_of_product p m k rounds q =
    mod-add-mul_mod (p + m * (k % 2)) (m + m) (k / 2 % 2 ^ rounds) q
    ∙ ap (λ (t : ℕ). t % q) (omega (arith, ap (λ (t : ℕ). m * t) (mod_pow_suc rounds k)))
