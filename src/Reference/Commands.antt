-- ===== src/Reference/Commands.antt =====
-- `execute` of model/reference.py: every opcode, and its agreement with model/modarith.py.
use lca.Prelude.{
  ℕ, ◌+◌, ◌-◌, ◌*◌, ◌%◌, ◌^◌, ◌≤◌, ◌<◌, ℤ, pos, negsuc, ok, err, ◌≡◌, ◌≢◌, ◌-ℤ◌, mod_ℤ, Bool, true,
  false, arith, if◌then◌else◌, refl, inl, inr,
}
use lca.Modarith
use lca.Reference.Defs.{
  execute, modulus, op_mul, op_ct, op_gs, q_mlkem, q_mldsa, unsupported_opcode,
}
use lca.Reference.Multiply.{modmul_lem}
use lca.Reference.Butterflies.{ct_butterfly_lem, gs_butterfly_lem}

-- What the hardware contract says of each command, on numbers.
abbrev pub field : Bool → ℕ
field mode_kem = if mode_kem then q_mlkem else q_mldsa

field_fits : (mode_kem : Bool) → field mode_kem ≤ 2 ^ 24
field_fits true = omega arith
field_fits false = omega arith

field-IsSupported : (mode_kem : Bool) → Modarith.IsSupported (field mode_kem)
field-IsSupported true = inl refl
field-IsSupported false = inr refl

modulus-field : (mode_kem : Bool) → modulus mode_kem ≡ pos (field mode_kem)
modulus-field true = refl
modulus-field false = refl

module _ (mode_kem : Bool) (a b zeta : ℕ) (ha : a < field mode_kem) (hb : b < field mode_kem)
    (hz : zeta < field mode_kem) where
  -- In either mode, on canonical operands, the Cooley-Tukey command returns the two outputs of the
  -- butterfly of model/modarith.py at the selected modulus, and the latter succeeds.
  pub execute-butterfly :
      (r : Modarith.ButterflyResult) × (Modarith.butterfly
          (pos a)
          (pos b)
          (pos zeta)
          (pos (field mode_kem))
        ≡ ok r)
      × (execute op_ct mode_kem (pos a) (pos b) (pos zeta) ≡ ok (r.out_a, r.out_b))
  unfolding execute
  execute-butterfly = (
    _,
    Modarith.butterfly_lem a b zeta (field mode_kem) (field-IsSupported mode_kem) ha hb hz,
    rw (modulus-field mode_kem)
        (ct_butterfly_lem a b zeta (field mode_kem) (field_fits mode_kem) ha hb hz),
  )

  -- In either mode, on canonical operands, a multiply command returns the product and zero, a
  -- Cooley-Tukey command the butterfly of the product, and a Gentleman-Sande command the sum and the
  -- product of the difference.
  pub execute_lem :
      (execute op_mul mode_kem (pos a) (pos b) (pos zeta)
        ≡ ok (pos (a * b % field mode_kem), pos 0))
      × (execute op_ct mode_kem (pos a) (pos b) (pos zeta)
          ≡ ok (
            pos ((a + b * zeta) % field mode_kem),
            mod_ℤ (pos a -ℤ pos (b * zeta)) (field mode_kem),
          ))
      × (execute op_gs mode_kem (pos a) (pos b) (pos zeta)
          ≡ ok (
            pos ((a + b) % field mode_kem),
            pos ((a + field mode_kem - b) * zeta % field mode_kem),
          ))
  unfolding execute
  execute_lem = (
    rw (modulus-field mode_kem, modmul_lem a b (field mode_kem) (field_fits mode_kem) ha hb),
    rw (modulus-field mode_kem)
        (ct_butterfly_lem a b zeta (field mode_kem) (field_fits mode_kem) ha hb hz),
    rw (modulus-field mode_kem)
        (gs_butterfly_lem a b zeta (field mode_kem) (field_fits mode_kem) ha hb hz),
  )

-- Any opcode but the three is refused, whatever the operands.
pub execute-unsupported :
    (op : ℤ) (mode_kem : Bool) (a b zeta : ℤ)
    → op ≢ op_mul
    → op ≢ op_ct
    → op ≢ op_gs
    → execute op mode_kem a b zeta ≡ err (unsupported_opcode op)
unfolding execute
execute-unsupported (pos n) mode_kem a b zeta h0 h1 h2 = ground arith
execute-unsupported (negsuc n) mode_kem a b zeta h0 h1 h2 = ground arith
