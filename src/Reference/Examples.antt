-- ===== src/Reference/Examples.antt =====
-- model/reference.py at concrete inputs.
use lca.Prelude.{pos, ◌-ℤ◌, and_ℤ, ok, err, ◌≡◌, refl, arith, true, false, ◌>>=◌}
use lca.Modarith
use lca.Reference.Defs.{
  op_mul, op_ct, op_gs, modmul, modmul_rounds, subtract_once, ct_butterfly, gs_butterfly, execute,
  unsupported_opcode,
}
use lca.Reference.Multiply.{modmul-digits, modmul_lem}
use lca.Reference.Butterflies.{ct_butterfly_lem, gs_butterfly_lem}
use lca.Reference.Inverse.{gs_butterfly-ct_butterfly}
use lca.Reference.Commands.{execute_lem, execute-butterfly, execute-unsupported}

-- A modulus above 2 ** 24 loses the high digit of the multiplier.
high_digit_lost : modmul (pos 1) (pos 16777216) (pos 33554432) ≡ ok (pos 0)
unfolding modmul modmul_rounds subtract_once and_ℤ
high_digit_lost = refl

modmul-digits_example : modmul (pos 1) (pos 16777217) (pos 33554432) ≡ ok (pos 1)
modmul-digits_example = modmul-digits 1 16777217 33554432 (omega arith) (omega arith)

modmul_lem_example : modmul (pos 3328) (pos 3328) (pos 3329) ≡ ok (pos 1)
modmul_lem_example = modmul_lem 3328 3328 3329 (omega arith) (omega arith) (omega arith)

ct_butterfly_lem_example : ct_butterfly (pos 1) (pos 2) (pos 3) (pos 3329) ≡ ok (pos 7, pos 3324)
unfolding ◌-ℤ◌
ct_butterfly_lem_example =
    ct_butterfly_lem 1 2 3 3329 (omega arith) (omega arith) (omega arith) (omega arith)

gs_butterfly_lem_example : gs_butterfly (pos 1) (pos 2) (pos 3) (pos 3329) ≡ ok (pos 3, pos 3326)
gs_butterfly_lem_example =
    gs_butterfly_lem 1 2 3 3329 (omega arith) (omega arith) (omega arith) (omega arith)

-- 17 and 1175 are inverse to one another modulo 3329.
gs_butterfly-ct_butterfly_example :
    (ct_butterfly (pos 5) (pos 3000) (pos 17) (pos 3329) >>= λ (u, v).
    gs_butterfly u v (pos 1175) (pos 3329))
    ≡ ok (pos 10, pos 2671)
gs_butterfly-ct_butterfly_example =
    gs_butterfly-ct_butterfly 5 3000 17 1175 3329 (omega arith) refl (omega arith) (omega arith)
      (omega arith) (omega arith)

execute_lem_example :
    (execute op_mul true (pos 1) (pos 2) (pos 3) ≡ ok (pos 2, pos 0))
    × (execute op_ct true (pos 1) (pos 2) (pos 3) ≡ ok (pos 7, pos 3324))
    × (execute op_gs true (pos 1) (pos 2) (pos 3) ≡ ok (pos 3, pos 3326))
unfolding ◌-ℤ◌
execute_lem_example = execute_lem true 1 2 3 (omega arith) (omega arith) (omega arith)

execute-butterfly_example :
    (r : Modarith.ButterflyResult) × (Modarith.butterfly (pos 1) (pos 2) (pos 3) (pos 8380417)
      ≡ ok r)
    × (execute op_ct false (pos 1) (pos 2) (pos 3) ≡ ok (r.out_a, r.out_b))
execute-butterfly_example = execute-butterfly false 1 2 3 (omega arith) (omega arith) (omega arith)

execute-unsupported_example :
    execute (pos 3) true (pos 1) (pos 2) (pos 3) ≡ err (unsupported_opcode (pos 3))
execute-unsupported_example =
    execute-unsupported (pos 3) true (pos 1) (pos 2) (pos 3) (ground arith) (ground arith)
      (ground arith)
