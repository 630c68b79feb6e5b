-- ===== src/Fastmod/Defs.antt =====
-- model/fastmod.py: the branch-free reductions and the request dispatcher.
-- Operands have the annotated type `int`, so the TypeError of `_require_canonical` is not modelled.
use Prim.Native.String.{String}
use lca.Prelude.{
  ℕ, ◌-◌, ◌^◌, ℤ, pos, ◌+ℤ◌, ◌-ℤ◌, ◌*ℤ◌, leb_ℤ, ltb_ℤ, ◌==ℤ◌, shr, shl, and_ℤ, Result, ok, err,
  ◌>>=◌, ◌>>◌, raise_if, if◌then◌else◌, not, ◌&&◌, ◌||◌, Bool, true, false,
}

pub data Error : Type 0 where
  not_canonical : String → ℤ → ℤ → Error
  unsupported_modulus_id : ℤ → Error
  unsupported_modulus : ℤ → Error

abbrev pub q_kem : ℤ
q_kem = pos 3329

abbrev pub kem_k : ℤ
kem_k = pos 13

abbrev pub kem_m : ℕ
kem_m = 8

abbrev pub kem_corr : ℤ
kem_corr = pos 1353

abbrev pub q_dsa : ℤ
q_dsa = pos 8_380_417

abbrev pub dsa_s : ℕ
dsa_s = 23

abbrev pub dsa_t : ℕ
dsa_t = 13

abbrev pub modulus_id_kem : ℤ
modulus_id_kem = pos 0

abbrev pub modulus_id_dsa : ℤ
modulus_id_dsa = pos 1

unfoldable pub cond_sub : ℤ → ℤ → ℕ → ℤ
unfolding ◌+ℤ◌ ◌-ℤ◌ and_ℤ
cond_sub value modulus width =
    let difference = value -ℤ modulus in
    let borrow = and_ℤ (shr difference width) (pos 1) in
    difference +ℤ and_ℤ modulus (pos 0 -ℤ borrow)

unfoldable pub kred : ℤ → ℤ
kred value = kem_k *ℤ and_ℤ value (pos (2 ^ kem_m - 1)) -ℤ shr value kem_m

unfoldable pub k2red : ℤ → ℤ
k2red value = kred (kred value)

unfoldable pub kem_normalize : ℤ → ℤ
kem_normalize value =
    let shifted = value +ℤ q_kem in let once = cond_sub shifted q_kem 13 in cond_sub once q_kem 13

unfoldable pub kred2_norm : ℤ → ℤ
kred2_norm value = kem_normalize (k2red value)

unfoldable pub reduce_kem : ℤ → ℤ
reduce_kem product = let scaled = kred2_norm product in kred2_norm (scaled *ℤ kem_corr)

unfoldable pub require_canonical : ℤ → ℤ → String → Result Error (Unit {0})
require_canonical value modulus name =
    raise_if (not (leb_ℤ (pos 0) value && ltb_ℤ value modulus)) (not_canonical name value modulus)

unfoldable pub mulmod_kem : ℤ → ℤ → Result Error ℤ
unfolding require_canonical
mulmod_kem a b = do
  require_canonical a q_kem "a"
  require_canonical b q_kem "b"
  ok (reduce_kem (a *ℤ b))

unfoldable pub dsa_fold : ℤ → ℤ
dsa_fold value =
    let low = and_ℤ value (pos (2 ^ dsa_s - 1)) in
    let high = shr value dsa_s in low +ℤ shl high dsa_t -ℤ high

unfoldable pub reduce_dsa : ℤ → ℤ
reduce_dsa product =
    let folded = dsa_fold (dsa_fold (dsa_fold (dsa_fold product))) in cond_sub folded q_dsa 24

unfoldable pub mulmod_dsa : ℤ → ℤ → Result Error ℤ
unfolding require_canonical
mulmod_dsa a b = do
  require_canonical a q_dsa "a"
  require_canonical b q_dsa "b"
  ok (reduce_dsa (a *ℤ b))

unfoldable pub modulus_for_id : ℤ → Result Error ℤ
modulus_for_id modulus_id =
    if modulus_id ==ℤ modulus_id_kem
    then ok q_kem
    else if modulus_id ==ℤ modulus_id_dsa
    then ok q_dsa
    else err (unsupported_modulus_id modulus_id)

unfoldable pub mulmod : ℤ → ℤ → ℤ → Result Error ℤ
mulmod a b modulus =
    if modulus ==ℤ q_kem
    then mulmod_kem a b
    else if modulus ==ℤ q_dsa
    then mulmod_dsa a b
    else err (unsupported_modulus modulus)

unfoldable pub request_is_valid : ℤ → ℤ → ℤ → Result Error Bool
unfolding modulus_for_id
request_is_valid modulus_id a b =
    if not (modulus_id ==ℤ modulus_id_kem || modulus_id ==ℤ modulus_id_dsa) then ok false else do
      modulus ← modulus_for_id modulus_id
      ok (leb_ℤ (pos 0) a && ltb_ℤ a modulus && (leb_ℤ (pos 0) b && ltb_ℤ b modulus))

unfoldable pub execute : ℤ → ℤ → ℤ → Result Error (ℤ × Bool)
unfolding request_is_valid modulus_for_id
execute modulus_id a b = do
  valid ← request_is_valid modulus_id a b
  if not valid
      then ok (pos 0, true)
      else do modulus ← modulus_for_id modulus_id; product ← mulmod a b modulus; ok (product, false)
