-- ===== src/Vectors/Corpus.antt =====
-- Every vector of the corpus is what model/modarith.py answers.
use lca.Prelude.{
  ℕ, zero, suc, ◌+◌, ◌≡◌, ◌⊎◌, ◌∙◌, List, [], ◌∷◌, ◌++◌, pos, ok, err, arith, All, All-append,
  length, length-append, Option, none, some,
}
use lca.Modarith.{Error, kem_q, dsa_q, word_bits, butterfly, ButterflyResult}
use lca.Vectors.Defs.{Vector}

-- The modulus that an identifier selects.
abbrev pub modulus_of : ℕ → Option ℕ
modulus_of zero = some kem_q
modulus_of (suc zero) = some dsa_q
modulus_of (suc (suc n)) = none

-- A vector that expects the butterfly's outputs after 24 cycles.
pub record IsAnswer (v : Vector) : Type 0 where
  pub modulus : ℕ
  pub selected : modulus_of v.modulus_id ≡ some modulus
  pub result : ButterflyResult
  pub computed : butterfly (pos v.a) (pos v.b) (pos v.twiddle) (pos modulus) ≡ ok result
  pub outputs : (v.expected_a ≡ result.out_a) × (v.expected_b ≡ result.out_b)
  pub no_fault : v.expected_fault ≡ 0
  pub latency : v.expected_latency ≡ word_bits

-- A vector that expects a fault: its modulus is unknown, or the butterfly raises on it.
pub record IsRejection (v : Vector) : Type 0 where
  pub raises :
      (modulus : ℕ)
      → modulus_of v.modulus_id ≡ some modulus
      → (e : Error) × (butterfly (pos v.a) (pos v.b) (pos v.twiddle) (pos modulus) ≡ err e)
  pub outputs : (v.expected_a ≡ pos 0) × (v.expected_b ≡ pos 0)
  pub fault : v.expected_fault ≡ 1

abbrev pub IsRight : Vector → Type 0
IsRight v = IsAnswer v ⊎ IsRejection v

-- The identifiers count up from a number.
abbrev pub Numbered : ℕ → List Vector → Type 0
Numbered n [] = Unit
Numbered n (v ∷ vs) = (v.case_id ≡ n) × Numbered (suc n) vs

Numbered-append :
    (n : ℕ) (vs : List Vector) (v : Vector)
    → Numbered n vs
    → v.case_id ≡ n + length vs
    → Numbered n (vs ++ v ∷ [])
Numbered-append n [] v h e = (e ∙ omega arith, tt)
Numbered-append n (w ∷ vs) v h e = (h.0, Numbered-append (suc n) vs v h.1 (e ∙ omega arith))

pub record IsCorpus (size : ℕ) (vs : List Vector) : Type 0 where
  pub numbered : Numbered 0 vs
  pub right : All IsRight vs
  pub length_is : length vs ≡ size

pub IsCorpus-append :
    (size : ℕ) (vs : List Vector) (v : Vector)
    → IsCorpus size vs
    → v.case_id ≡ length vs
    → IsRight v
    → IsCorpus (suc size) (vs ++ v ∷ [])
IsCorpus-append size vs v c e r = record {
  numbered = Numbered-append 0 vs v c.numbered (e ∙ omega arith);
  right = All-append IsRight vs (v ∷ []) c.right (r, tt);
  length_is = length-append vs (v ∷ []) ∙ omega (arith, c.length_is);
}
