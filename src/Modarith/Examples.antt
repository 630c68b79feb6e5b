-- ===== src/Modarith/Examples.antt =====
-- model/modarith.py at concrete inputs: tests, and the theorems at inputs that meet their premises.
use lca.Prelude.{pos, negsuc, ◌-ℤ◌, and_ℤ, ok, err, ◌≡◌, ◌↔◌, refl, inl, inr, arith}
use lca.Modarith.Defs.{
  kem_q, dsa_q, add_mod, sub_mod, mul_mod_shift_add, multiply_rounds, butterfly, ButterflyResult,
  not_canonical, unsupported_modulus, word_bits_too_small,
}
use lca.Modarith.Steps.{add_mod_lem, sub_mod_lem}
use lca.Modarith.Agreement.{mul_mod_shift_add_lem, butterfly_lem}
use lca.Modarith.Rejection.{IsRequest, butterfly-ok_iff}

refusals :
    (add_mod (pos 3329) (pos 0) (pos kem_q) ≡ err (not_canonical "a" (pos 3329) (pos kem_q)))
    × (sub_mod (pos 0) (negsuc 0) (pos kem_q) ≡ err (not_canonical "b" (negsuc 0) (pos kem_q)))
    × (add_mod (pos 1) (pos 1) (pos 7681) ≡ err (unsupported_modulus (pos 7681)))
    × (mul_mod_shift_add (pos 1) (pos 1) (pos kem_q) (pos 23) ≡ err word_bits_too_small)
unfolding add_mod sub_mod mul_mod_shift_add
refusals = (refl, refl, refl, refl)

product_runs :
    mul_mod_shift_add (pos 3328) (pos 3328) (pos kem_q) (pos 24)
    ≡ ok (record { value = pos 1; cycles = pos 24 })
unfolding mul_mod_shift_add multiply_rounds add_mod and_ℤ
product_runs = refl

add_mod_lem_example : add_mod (pos 3000) (pos 400) (pos kem_q) ≡ ok (pos 71)
add_mod_lem_example = add_mod_lem 3000 400 kem_q (inl refl) (omega arith) (omega arith)

sub_mod_lem_example : sub_mod (pos 1) (pos 2) (pos dsa_q) ≡ ok (pos 8380416)
sub_mod_lem_example = sub_mod_lem 1 2 dsa_q (inr refl) (omega arith) (omega arith)

mul_mod_shift_add_lem_example :
    mul_mod_shift_add (pos 8380416) (pos 2) (pos dsa_q) (pos 32)
    ≡ ok (record { value = pos 8380415; cycles = pos 32 })
mul_mod_shift_add_lem_example =
    mul_mod_shift_add_lem 8380416 2 dsa_q 32 (inr refl) (omega arith) (omega arith) (omega arith)

butterfly_lem_example :
    butterfly (pos 1) (pos 2) (pos 3) (pos kem_q)
    ≡ ok (record { out_a = pos 7; out_b = pos 3324; product = pos 6; cycles = pos 24 })
unfolding ◌-ℤ◌
butterfly_lem_example =
    butterfly_lem 1 2 3 kem_q (inl refl) (omega arith) (omega arith) (omega arith)

butterfly-ok_iff_example :
    IsRequest (pos 1) (pos 2) (pos 3329) (pos kem_q)
    ↔ ((r : ButterflyResult) × (butterfly (pos 1) (pos 2) (pos 3329) (pos kem_q) ≡ ok r))
butterfly-ok_iff_example = butterfly-ok_iff (pos 1) (pos 2) (pos 3329) (pos kem_q)
