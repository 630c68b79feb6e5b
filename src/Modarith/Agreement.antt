-- ===== src/Modarith/Agreement.antt =====
-- The multiplier and the butterfly of model/modarith.py compute in the field Z/q.
use lca.Prelude.{
  ℕ, ◌+◌, ◌-◌, ◌*◌, ◌%◌, ◌^◌, ◌≤◌, ◌<◌, pos, ◌-ℤ◌, mod_ℤ, ok, ◌≡◌, arith, sub_reduced,
}
use native.Mathlib.Nat.{pow-le-pow_right, mod-lt, mod-eq_of_lt, add-mod-mod}
use lca.Modarith.Defs.{mul_mod_shift_add, butterfly, word_bits}
use lca.Modarith.Steps.{IsSupported, add_mod_lem, sub_mod_lem}
use lca.Modarith.Multiply.{multiply_rounds_lem, supported_pos}

fits_word : (b q : ℕ) → IsSupported q → b < q → b < 2 ^ word_bits
fits_word b q s h = ground arith

-- A residue fits any width from 24 bits up.
residue_fits : (b q bits : ℕ) → IsSupported q → b < q → word_bits ≤ bits → b % 2 ^ bits ≡ b
residue_fits b q bits s h w =
    mod-eq_of_lt (omega (arith, pow-le-pow_right {n = 2} (omega arith) w, fits_word b q s h))

module _ (a b q bits : ℕ) (supported : IsSupported q) (ha : a < q) (hb : b < q)
    (wide : word_bits ≤ bits) where
  -- For a supported modulus, canonical operands and any width from 24 bits up, the shift-add
  -- multiplier returns the remainder of the product, and its count of cycles is the width.
  pub mul_mod_shift_add_lem :
      mul_mod_shift_add (pos a) (pos b) (pos q) (pos bits)
      ≡ ok (record { value = pos (a * b % q); cycles = pos bits })
  unfolding mul_mod_shift_add
  mul_mod_shift_add_lem = ground (
    arith,
    multiply_rounds_lem q supported bits 0 a b (supported_pos q supported) ha,
    residue_fits b q bits supported hb wide,
  )

module _ (a b w q : ℕ) (supported : IsSupported q) (ha : a < q) (hb : b < q) (hw : w < q) where
  butterfly_parts :
      butterfly (pos a) (pos b) (pos w) (pos q)
      ≡ ok (record {
        out_a = pos ((a + b * w % q) % q);
        out_b = pos ((a + q - b * w % q) % q);
        product = pos (b * w % q);
        cycles = pos word_bits;
      })
  unfolding butterfly
  butterfly_parts = ground (
    arith,
    mul_mod_shift_add_lem b w q word_bits supported hb hw,
    mod-lt (b * w) (supported_pos q supported),
    add_mod_lem a (b * w % q) q supported ha,
    sub_mod_lem a (b * w % q) q supported ha,
  )

  -- For a supported modulus and canonical operands the butterfly returns the remainders of
  -- `a + b * w` and `a - b * w`, the product reduced, and 24 cycles.
  pub butterfly_lem :
      butterfly (pos a) (pos b) (pos w) (pos q)
      ≡ ok (record {
        out_a = pos ((a + b * w) % q);
        out_b = mod_ℤ (pos a -ℤ pos (b * w)) q;
        product = pos (b * w % q);
        cycles = pos word_bits;
      })
  butterfly_lem = cc (butterfly_parts, add-mod-mod a (b * w) q, sub_reduced a (b * w) q ha)
