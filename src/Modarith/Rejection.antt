-- ===== src/Modarith/Rejection.antt =====
-- The checks of model/modarith.py: what is accepted is a canonical request.
use lca.Prelude.{ℤ, pos, ◌≤ℤ◌, ◌<ℤ◌, ok, negsuc, ◌↔◌, ◌≡◌, ◌⊎◌, arith}
use lca.Modarith.Agreement.{butterfly_lem}
use lca.Modarith.Defs.{kem_q, dsa_q, mul_mod_shift_add, butterfly, ButterflyResult}

pub record IsResidue (value modulus : ℤ) : Type 0 where
  pub nonnegative : pos 0 ≤ℤ value
  pub below : value <ℤ modulus

pub record IsRequest (a b twiddle modulus : ℤ) : Type 0 where
  pub supported : (modulus ≡ pos kem_q) ⊎ (modulus ≡ pos dsa_q)
  pub a_residue : IsResidue a modulus
  pub b_residue : IsResidue b modulus
  pub twiddle_residue : IsResidue twiddle modulus

butterfly_accepts :
    (a b twiddle modulus : ℤ)
    → IsRequest a b twiddle modulus
    → (r : ButterflyResult) × (butterfly a b twiddle modulus ≡ ok r)
butterfly_accepts (pos a) (pos b) (pos w) (pos q) h =
    (_, butterfly_lem a b w q (ground arith) (omega arith) (omega arith) (omega arith))
butterfly_accepts (pos a) (pos b) (pos w) (negsuc q) h = absurd (omega arith)
butterfly_accepts (pos a) (pos b) (negsuc w) m h = absurd (omega arith)
butterfly_accepts (pos a) (negsuc b) w m h = absurd (omega arith)
butterfly_accepts (negsuc a) b w m h = absurd (omega arith)

butterfly-ok-IsRequest :
    (a b twiddle modulus : ℤ) {r : ButterflyResult}
    → butterfly a b twiddle modulus ≡ ok r
    → IsRequest a b twiddle modulus
unfolding butterfly mul_mod_shift_add
butterfly-ok-IsRequest a b twiddle modulus h = ground arith

-- The butterfly returns a result exactly when the modulus is supported and all three operands
-- are canonical residues of it; every other request raises.
pub butterfly-ok_iff :
    (a b twiddle modulus : ℤ)
    → IsRequest a b twiddle modulus
      ↔ ((r : ButterflyResult) × (butterfly a b twiddle modulus ≡ ok r))
butterfly-ok_iff a b twiddle modulus =
    (butterfly_accepts a b twiddle modulus, λ h. butterfly-ok-IsRequest a b twiddle modulus h.1)
