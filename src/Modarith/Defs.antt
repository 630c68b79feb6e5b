-- ===== src/Modarith/Defs.antt =====
-- model/modarith.py: the operations themselves.
-- Arguments have the annotated type `int`, so the `isinstance` test of `_validate_residue` passes
-- and its TypeError is not an error of the model.
use lca.Prelude.{
  ℕ, zero, suc, ◌-◌, ◌^◌, ℤ, pos, pos_part, ◌+ℤ◌, ◌-ℤ◌, leb_ℤ, ltb_ℤ, ◌==ℤ◌, shr, and_ℤ, Result, ok,
  ◌>>=◌, ◌>>◌, raise_if, if◌then◌else◌, not, ◌&&◌, ◌||◌,
}
use Prim.Native.String.{String}

pub data Error : Type 0 where
  unsupported_modulus : ℤ → Error
  modulus_too_wide : Error
  not_canonical : String → ℤ → ℤ → Error
  word_bits_too_small : Error

abbrev pub kem_q : ℕ
kem_q = 3329

abbrev pub dsa_q : ℕ
dsa_q = 8_380_417

abbrev pub word_bits : ℕ
word_bits = 24

unfoldable pub validate_modulus : ℤ → Result Error (Unit {0})
validate_modulus modulus = do
  raise_if (not (modulus ==ℤ pos kem_q || modulus ==ℤ pos dsa_q)) (unsupported_modulus modulus)
  raise_if (leb_ℤ (pos (2 ^ (word_bits - 1))) modulus) modulus_too_wide

unfoldable pub validate_residue : ℤ → ℤ → String → Result Error (Unit {0})
validate_residue value modulus name =
    raise_if (not (leb_ℤ (pos 0) value && ltb_ℤ value modulus)) (not_canonical name value modulus)

unfoldable pub add_mod : ℤ → ℤ → ℤ → Result Error ℤ
unfolding validate_modulus validate_residue ◌+ℤ◌ ◌-ℤ◌
add_mod a b modulus = do
  validate_modulus modulus
  validate_residue a modulus "a"
  validate_residue b modulus "b"
  let total = a +ℤ b
  ok (if leb_ℤ modulus total then total -ℤ modulus else total)

unfoldable pub sub_mod : ℤ → ℤ → ℤ → Result Error ℤ
unfolding validate_modulus validate_residue ◌+ℤ◌ ◌-ℤ◌
sub_mod a b modulus = do
  validate_modulus modulus
  validate_residue a modulus "a"
  validate_residue b modulus "b"
  ok (if leb_ℤ b a then a -ℤ b else a +ℤ modulus -ℤ b)

pub record MulResult : Type 0 where
  pub value : ℤ
  pub cycles : ℤ

-- The rounds of `for _ in range(word_bits)` that are left.
unfoldable pub multiply_rounds : ℕ → ℤ → ℤ → ℤ → ℤ → Result Error ℤ
multiply_rounds zero modulus product multiplicand multiplier = ok product
multiply_rounds (suc rounds) modulus product multiplicand multiplier = do
  product' ←
      if not (and_ℤ multiplier (pos 1) ==ℤ pos 0)
      then add_mod product multiplicand modulus
      else ok product
  multiplicand' ← add_mod multiplicand multiplicand modulus
  multiply_rounds rounds modulus product' multiplicand' (shr multiplier 1)

unfoldable pub mul_mod_shift_add : ℤ → ℤ → ℤ → ℤ → Result Error MulResult
unfolding validate_modulus validate_residue
mul_mod_shift_add a b modulus bits = do
  validate_modulus modulus
  validate_residue a modulus "a"
  validate_residue b modulus "b"
  raise_if (ltb_ℤ bits (pos word_bits)) word_bits_too_small
  product ← multiply_rounds (pos_part bits) modulus (pos 0) a b
  ok (record { value = product; cycles = bits })

pub record ButterflyResult : Type 0 where
  pub out_a : ℤ
  pub out_b : ℤ
  pub product : ℤ
  pub cycles : ℤ

unfoldable pub butterfly : ℤ → ℤ → ℤ → ℤ → Result Error ButterflyResult
unfolding validate_residue
butterfly a b twiddle modulus = do
  validate_residue a modulus "a"
  validate_residue b modulus "b"
  validate_residue twiddle modulus "twiddle"
  product ← mul_mod_shift_add b twiddle modulus (pos word_bits)
  sum ← add_mod a product.value modulus
  difference ← sub_mod a product.value modulus
  ok (record { out_a = sum; out_b = difference; product = product.value; cycles = product.cycles })
