-- ===== src/Fastmod/Requests.antt =====
-- The multipliers and the request dispatcher of model/fastmod.py, and their agreement with the
-- shift-add multiplier of model/modarith.py.
use lca.Prelude.{
  ℕ, ◌-◌, ◌*◌, ◌%◌, ◌≤◌, ◌<◌, ℤ, pos, negsuc, ◌*ℤ◌, mod_ℤ, ◌≡◌, ◌∙◌, arith, ok, true, false, ◌⊎◌,
  inl, inr, Bool-cases, ◌==ℤ◌,
}
use lca.Modarith
use lca.Modarith.{IsResidue, IsSupported}
use lca.Fastmod.Defs.{
  request_is_valid, mulmod_kem, mulmod_dsa, mulmod, modulus_for_id, execute, modulus_id_kem,
  modulus_id_dsa,
}
use lca.Fastmod.KemReduction.{reduce_kem_lem}
use lca.Fastmod.Dsa.{reduce_dsa_lem}

mul_bound : (a b q : ℕ) → a < q → b < q → a * b ≤ (q - 1) * (q - 1)
mul_bound a b q ha hb = grind arith

mulmod_kem_lem :
    (a b : ℕ) → a < 3329 → b < 3329 → mulmod_kem (pos a) (pos b) ≡ ok (pos (a * b % 3329))
unfolding mulmod_kem ◌*ℤ◌
mulmod_kem_lem a b ha hb = ground (arith, mul_bound a b 3329 ha hb, reduce_kem_lem (a * b))

mulmod_dsa_lem :
    (a b : ℕ) → a < 8380417 → b < 8380417 → mulmod_dsa (pos a) (pos b) ≡ ok (pos (a * b % 8380417))
unfolding mulmod_dsa ◌*ℤ◌
mulmod_dsa_lem a b ha hb = ground (arith, mul_bound a b 8380417 ha hb, reduce_dsa_lem (a * b))

-- For a supported modulus and canonical operands the fast multiplier returns the product in the
-- field.
pub mulmod_lem :
    (a b q : ℕ)
    → IsSupported q
    → a < q
    → b < q
    → mulmod (pos a) (pos b) (pos q) ≡ ok (pos (a * b % q))
unfolding mulmod
mulmod_lem a b q (inl kem) ha hb = ground (arith, mulmod_kem_lem a b)
mulmod_lem a b q (inr dsa) ha hb = ground (arith, mulmod_dsa_lem a b)

-- On canonical operands of a supported modulus the fast multiplier and the shift-add multiplier of
-- any width from 24 bits up both succeed, with the same value.
pub mulmod-mul_mod_shift_add :
    (a b q bits : ℕ)
    → IsSupported q
    → a < q
    → b < q
    → Modarith.word_bits ≤ bits
    → (r : Modarith.MulResult) × (Modarith.mul_mod_shift_add (pos a) (pos b) (pos q) (pos bits)
        ≡ ok r)
      × (mulmod (pos a) (pos b) (pos q) ≡ ok r.value)
mulmod-mul_mod_shift_add a b q bits s ha hb wide =
    (_, Modarith.mul_mod_shift_add_lem a b q bits s ha hb wide, mulmod_lem a b q s ha hb)

-- A request names a field and two canonical residues of it.
pub record IsRequest (modulus_id a b : ℤ) : Type 0 where
  pub modulus : ℕ
  pub selected : modulus_for_id modulus_id ≡ ok (pos modulus)
  pub a_residue : IsResidue a (pos modulus)
  pub b_residue : IsResidue b (pos modulus)

execute_kem :
    (a b : ℕ)
    → a < 3329
    → b < 3329
    → execute modulus_id_kem (pos a) (pos b) ≡ ok (pos (a * b % 3329), false)
unfolding execute mulmod
execute_kem a b ha hb = ground (arith, mulmod_kem_lem a b ha hb)

execute_dsa :
    (a b : ℕ)
    → a < 8380417
    → b < 8380417
    → execute modulus_id_dsa (pos a) (pos b) ≡ ok (pos (a * b % 8380417), false)
unfolding execute mulmod
execute_dsa a b ha hb = ground (arith, mulmod_dsa_lem a b ha hb)

-- The two selectors and their moduli.
modulus_for_id-ok :
    (modulus_id : ℤ) (m : ℕ)
    → modulus_for_id modulus_id ≡ ok (pos m)
    → ((modulus_id ≡ modulus_id_kem) × (m ≡ 3329)) ⊎ ((modulus_id ≡ modulus_id_dsa) × (m ≡ 8380417))
unfolding modulus_for_id
modulus_for_id-ok modulus_id m h = ground arith

execute_selected :
    (modulus_id : ℤ) (a b m : ℕ)
    → ((modulus_id ≡ modulus_id_kem) × (m ≡ 3329)) ⊎ ((modulus_id ≡ modulus_id_dsa) × (m ≡ 8380417))
    → a < m
    → b < m
    → execute modulus_id (pos a) (pos b) ≡ ok (pos (a * b % m), false)
execute_selected modulus_id a b m (inl (i, e)) ha hb =
    rw (i, e) (execute_kem a b (rw e at ha) (rw e at hb))
execute_selected modulus_id a b m (inr (i, e)) ha hb =
    rw (i, e) (execute_dsa a b (rw e at ha) (rw e at hb))

-- A valid request is answered with the product in the selected field and no fault.
pub execute-multiplies :
    (modulus_id a b : ℤ) (r : IsRequest modulus_id a b)
    → execute modulus_id a b ≡ ok (mod_ℤ (a *ℤ b) r.modulus, false)
execute-multiplies modulus_id (pos a) (pos b) r =
    execute_selected modulus_id a b r.modulus (modulus_for_id-ok modulus_id r.modulus r.selected)
      (omega arith) (omega arith)
    ∙ (unfold ◌*ℤ◌ in ground arith)
execute-multiplies modulus_id (pos a) (negsuc b) r = absurd (omega arith)
execute-multiplies modulus_id (negsuc a) b r = absurd (omega arith)

request_cases :
    (modulus_id a b : ℤ)
    → (request_is_valid modulus_id a b ≡ ok true) ⊎ (request_is_valid modulus_id a b ≡ ok false)
unfolding request_is_valid
request_cases modulus_id a b = ground arith

valid-IsRequest :
    (modulus_id a b : ℤ) → request_is_valid modulus_id a b ≡ ok true → IsRequest modulus_id a b
unfolding request_is_valid
valid-IsRequest modulus_id a b h = elim (Bool-cases (modulus_id ==ℤ modulus_id_kem)) [
  | inl kem ↦ record {
    modulus = 3329;
    selected = ground arith;
    a_residue = ground arith;
    b_residue = ground arith;
  }
  | inr other ↦ record {
    modulus = 8380417;
    selected = ground arith;
    a_residue = ground arith;
    b_residue = ground arith;
  }
]

execute_invalid :
    (modulus_id a b : ℤ)
    → request_is_valid modulus_id a b ≡ ok false
    → execute modulus_id a b ≡ ok (pos 0, true)
execute_invalid modulus_id a b h = unfold execute in rw h

-- Every other request, whatever its selector and operands, is answered with a zero product and the
-- fault flag; the dispatcher never raises on it.
pub execute-faults :
    (modulus_id a b : ℤ) → ¬ IsRequest modulus_id a b → execute modulus_id a b ≡ ok (pos 0, true)
execute-faults modulus_id a b bad = elim (request_cases modulus_id a b) [
  | inl valid ↦ absurd (bad (valid-IsRequest modulus_id a b valid))
  | inr invalid ↦ execute_invalid modulus_id a b invalid
]
