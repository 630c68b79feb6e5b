-- ===== src/Fastmod/Examples.antt =====
-- model/fastmod.py at concrete inputs.
use lca.Prelude.{
  pos, negsuc, ◌+ℤ◌, ◌-ℤ◌, ◌*ℤ◌, ◌≤ℤ◌, mod_ℤ, and_ℤ, shr, ok, ◌≡◌, refl, arith, inl, inr, true,
  false,
}
use lca.Modarith
use lca.Fastmod.Defs.{
  cond_sub, kred, k2red, kem_normalize, kred2_norm, reduce_kem, dsa_fold, reduce_dsa, mulmod,
  modulus_for_id, execute, q_dsa, dsa_s,
}
use lca.Fastmod.Select.{cond_sub-if}
use lca.Fastmod.Kem.{kred_range, k2red_range}
use lca.Fastmod.KemReduction.{kred2_norm_lem, reduce_kem_lem}
use lca.Fastmod.Dsa.{dsa_fold_identity, reduce_dsa_lem}
use lca.Fastmod.Requests.{
  mulmod_lem, mulmod-mul_mod_shift_add, execute-multiplies, execute-faults, IsRequest,
}

-- Both ends of the documented range of one K-RED step are attained.
kred_ends : (kred (pos 16776960) ≡ negsuc 65534) × (kred (pos 255) ≡ pos 3315)
unfolding kred ◌-ℤ◌ ◌*ℤ◌ and_ℤ
kred_ends = (refl, refl)

reductions_run : (reduce_kem (pos 11075584) ≡ pos 1) × (reduce_dsa (pos 70231372333056) ≡ pos 1)
unfolding reduce_kem kred2_norm kem_normalize k2red kred reduce_dsa dsa_fold cond_sub ◌*ℤ◌ ◌-ℤ◌
    and_ℤ
reductions_run = (refl, refl)

cond_sub-if_example : cond_sub (pos 6900) (pos 3329) 13 ≡ pos 3571
cond_sub-if_example = cond_sub-if 6900 3329 13 (omega arith) (omega arith)

kred_range_example : (negsuc 65534 ≤ℤ kred (pos 16776960)) × (kred (pos 16776960) ≤ℤ pos 3315)
kred_range_example = kred_range 16776960 (omega arith)

k2red_range_example : (negsuc 11 ≤ℤ k2red (pos 16776960)) × (k2red (pos 16776960) ≤ℤ pos 3571)
k2red_range_example = k2red_range 16776960 (omega arith)

kred2_norm_lem_example : kred2_norm (pos 3329) ≡ pos 0
kred2_norm_lem_example = kred2_norm_lem 3329 (omega arith)

reduce_kem_lem_example : reduce_kem (pos 16777215) ≡ pos 2384
reduce_kem_lem_example = reduce_kem_lem 16777215 (omega arith)

dsa_fold_identity_example :
    dsa_fold (negsuc 8388608) +ℤ shr (negsuc 8388608) dsa_s *ℤ q_dsa ≡ negsuc 8388608
dsa_fold_identity_example = dsa_fold_identity (negsuc 8388608)

reduce_dsa_lem_example : reduce_dsa (pos 70368744177663) ≡ pos 49144
reduce_dsa_lem_example = reduce_dsa_lem 70368744177663 (omega arith)

mulmod_lem_example : mulmod (pos 3328) (pos 2) (pos 3329) ≡ ok (pos 3327)
mulmod_lem_example = mulmod_lem 3328 2 3329 (inl refl) (omega arith) (omega arith)

mulmod-mul_mod_shift_add_example :
    (r : Modarith.MulResult) × (Modarith.mul_mod_shift_add (pos 5) (pos 7) (pos 8380417) (pos 24)
      ≡ ok r)
    × (mulmod (pos 5) (pos 7) (pos 8380417) ≡ ok r.value)
mulmod-mul_mod_shift_add_example =
    mulmod-mul_mod_shift_add 5 7 8380417 24 (inr refl) (omega arith) (omega arith) (omega arith)

abbrev request : IsRequest (pos 0) (pos 3328) (pos 3328)
unfolding modulus_for_id
request = record {
  modulus = 3329;
  selected = refl;
  a_residue = record { nonnegative = omega arith; below = omega arith };
  b_residue = record { nonnegative = omega arith; below = omega arith };
}

execute-multiplies_example :
    execute (pos 0) (pos 3328) (pos 3328) ≡ ok (mod_ℤ (pos 3328 *ℤ pos 3328) request.modulus, false)
unfolding modulus_for_id
execute-multiplies_example = execute-multiplies (pos 0) (pos 3328) (pos 3328) request

-- Selector 2 names no modulus.
no_request : ¬ IsRequest (pos 2) (pos 0) (pos 0)
unfolding modulus_for_id
no_request r = cc r.selected

execute-faults_example : execute (pos 2) (pos 0) (pos 0) ≡ ok (pos 0, true)
execute-faults_example = execute-faults (pos 2) (pos 0) (pos 0) no_request
