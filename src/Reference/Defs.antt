-- ===== src/Reference/Defs.antt =====
-- model/reference.py: the arithmetic reference model and its command dispatcher.
use Prim.Native.String.{String}
use lca.Prelude.{
  ℕ, zero, suc, ℤ, pos, pos_part, ◌+ℤ◌, ◌-ℤ◌, leb_ℤ, ltb_ℤ, ◌==ℤ◌, shr, shl, and_ℤ, mod_ℤ, Result,
  ok, err, ◌>>=◌, ◌>>◌, raise_if, if◌then◌else◌, not, ◌&&◌, Bool,
}

pub data Error : Type 0 where
  not_canonical : String → ℤ → ℤ → Error
  unsupported_opcode : ℤ → Error

abbrev pub q_mldsa : ℕ
q_mldsa = 8_380_417

abbrev pub q_mlkem : ℕ
q_mlkem = 3_329

abbrev pub op_mul : ℤ
op_mul = pos 0

abbrev pub op_ct : ℤ
op_ct = pos 1

abbrev pub op_gs : ℤ
op_gs = pos 2

abbrev pub modulus : Bool → ℤ
modulus mode_kem = if mode_kem then pos q_mlkem else pos q_mldsa

unfoldable pub require_canonical : ℤ → ℤ → String → Result Error (Unit {0})
require_canonical value q name =
    raise_if (not (leb_ℤ (pos 0) value && ltb_ℤ value q)) (not_canonical name value q)

-- `x % q`, for the positive `q` that the checks before it leave.
abbrev pub reduce : ℤ → ℤ → ℤ
reduce x q = mod_ℤ x (pos_part q)

-- `if x >= q: x -= q`
unfoldable pub subtract_once : ℤ → ℤ → ℤ
unfolding ◌-ℤ◌
subtract_once x q = if leb_ℤ q x then x -ℤ q else x

-- The rounds of `for _ in range(24)` that are left.
unfoldable pub modmul_rounds : ℕ → ℤ → ℤ → ℤ → ℤ → ℤ
modmul_rounds zero q accumulator multiplicand multiplier = accumulator
modmul_rounds (suc rounds) q accumulator multiplicand multiplier =
    modmul_rounds rounds q
      (if not (and_ℤ multiplier (pos 1) ==ℤ pos 0)
        then subtract_once (accumulator +ℤ multiplicand) q
        else accumulator)
      (subtract_once (shl multiplicand 1) q) (shr multiplier 1)

unfoldable pub modmul : ℤ → ℤ → ℤ → Result Error ℤ
unfolding require_canonical
modmul a b q = do
  require_canonical a q "a"
  require_canonical b q "b"
  ok (modmul_rounds 24 q (pos 0) a b)

unfoldable pub ct_butterfly : ℤ → ℤ → ℤ → ℤ → Result Error (ℤ × ℤ)
unfolding require_canonical
ct_butterfly a b zeta q = do
  require_canonical a q "a"
  require_canonical b q "b"
  require_canonical zeta q "zeta"
  t ← modmul b zeta q
  ok (reduce (a +ℤ t) q, reduce (a -ℤ t) q)

unfoldable pub gs_butterfly : ℤ → ℤ → ℤ → ℤ → Result Error (ℤ × ℤ)
unfolding require_canonical
gs_butterfly a b zeta q = do
  require_canonical a q "a"
  require_canonical b q "b"
  require_canonical zeta q "zeta"
  t ← modmul (reduce (a -ℤ b) q) zeta q
  ok (reduce (a +ℤ b) q, t)

unfoldable pub execute : ℤ → Bool → ℤ → ℤ → ℤ → Result Error (ℤ × ℤ)
execute op mode_kem a b zeta =
    let q = modulus mode_kem in
    if op ==ℤ op_mul
    then (do product ← modmul a b q; ok (product, pos 0))
    else if op ==ℤ op_ct
    then ct_butterfly a b zeta q
    else if op ==ℤ op_gs
    then gs_butterfly a b zeta q
    else err (unsupported_opcode op)
