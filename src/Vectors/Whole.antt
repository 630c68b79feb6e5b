-- ===== src/Vectors/Whole.antt =====
-- The malformed vectors, and the whole corpus.
use lca.Prelude.{
  ℕ, zero, suc, ◌+◌, ◌*◌, ◌≤◌, ◌<◌, ◌≡◌, ◌⊎◌, ◌∙◌, refl, sym, subst, inl, inr, List, [], ◌∷◌, pos,
  ok, err, ◌>>=◌, arith, All, length, some, Result-cases,
}
use lca.Modarith.{Error, kem_q, dsa_q, butterfly, IsRequest, butterfly-ok_iff}
use lca.Vectors.Defs.{
  Vector, invalid_case, append_block, append_values, append_invalid, with_operand, invalid_values,
  append_malformed, build_vectors, random_cases_per_modulus,
}
use lca.Vectors.Corpus.{modulus_of, IsRejection, IsCorpus, IsCorpus-append}
use lca.Vectors.Answers.{Yields, Yields-bind, append_block-Yields, edge_inputs-Below}

-- The butterfly raises on every triple that is no request.
butterfly_raises :
    (a b w q : ℕ)
    → ¬ IsRequest (pos a) (pos b) (pos w) (pos q)
    → (e : Error) × (butterfly (pos a) (pos b) (pos w) (pos q) ≡ err e)
butterfly_raises a b w q bad = elim (Result-cases (butterfly (pos a) (pos b) (pos w) (pos q))) [
  | inl (r, fine) ↦ absurd (bad ((butterfly-ok_iff (pos a) (pos b) (pos w) (pos q)).1 (r, fine)))
  | inr raised ↦ raised
]

-- Three operands of which one is not below the modulus.
abbrev Beyond : ℕ → ℕ × ℕ × ℕ → Type 0
Beyond q (a, b, w) = (q ≤ a) ⊎ (q ≤ b) ⊎ (q ≤ w)

Beyond-not-IsRequest :
    (q a b w : ℕ) → Beyond q (a, b, w) → ¬ IsRequest (pos a) (pos b) (pos w) (pos q)
Beyond-not-IsRequest q a b w (inl h) r = absurd (omega (arith, h, r.a_residue.below))
Beyond-not-IsRequest q a b w (inr (inl h)) r = absurd (omega (arith, h, r.b_residue.below))
Beyond-not-IsRequest q a b w (inr (inr h)) r = absurd (omega (arith, h, r.twiddle_residue.below))

invalid_case-IsRejection :
    (id mid a b w : ℕ)
    → ((q : ℕ) → modulus_of mid ≡ some q → Beyond q (a, b, w))
    → IsRejection (invalid_case id mid a b w)
invalid_case-IsRejection id mid a b w h = record {
  raises = λ q e. butterfly_raises a b w q (Beyond-not-IsRequest q a b w (h q e));
  outputs = (refl, refl);
  fault = refl;
}

append_invalid-IsCorpus :
    (mid size : ℕ) (vs : List Vector) (inputs : ℕ × ℕ × ℕ)
    → ((q : ℕ) → modulus_of mid ≡ some q → Beyond q inputs)
    → IsCorpus size vs
    → IsCorpus (suc size) (append_invalid mid vs inputs)
append_invalid-IsCorpus mid size vs (a, b, w) h c =
    IsCorpus-append size vs _ c refl (inr (invalid_case-IsRejection (length vs) mid a b w h))

with_operand-Beyond : (q index value : ℕ) → q ≤ value → Beyond q (with_operand index value)
with_operand-Beyond q zero value h = inl h
with_operand-Beyond q (suc zero) value h = inr (inl h)
with_operand-Beyond q (suc (suc n)) value h = inr (inr h)

some_same : (m q : ℕ) → some m ≡ some q → m ≡ q
some_same m q e = cc

module _ (mid q : ℕ) (selected : modulus_of mid ≡ some q) where
  append_values-IsCorpus :
      (index size : ℕ) (vs : List Vector) (values : List ℕ)
      → All (λ v. q ≤ v) values
      → IsCorpus size vs
      → IsCorpus (size + length values) (append_values mid index vs values)
  unfolding append_values
  append_values-IsCorpus index size vs [] h c = subst (λ n. IsCorpus n vs) (omega arith) c
  append_values-IsCorpus index size vs (v ∷ values) h c =
      subst
        (λ n.
          IsCorpus n
            (append_values mid index (append_invalid mid vs (with_operand index v)) values))
        (omega arith)
        (append_values-IsCorpus index (suc size) (append_invalid mid vs (with_operand index v))
          values h.1
          (append_invalid-IsCorpus mid size vs (with_operand index v)
            (λ m e.
              subst (λ n. Beyond n (with_operand index v)) (some_same q m (sym selected ∙ e))
                (with_operand-Beyond q index v h.0))
            c))

  append_malformed-IsCorpus :
      (size : ℕ) (vs : List Vector)
      → All (λ v. q ≤ v) (invalid_values q)
      → IsCorpus size vs
      → IsCorpus (size + 3 * length (invalid_values q)) (append_malformed mid q vs)
  append_malformed-IsCorpus size vs h c =
      subst (λ n. IsCorpus n (append_malformed mid q vs)) (omega arith)
        (append_values-IsCorpus 2 _ _ (invalid_values q) h (
          append_values-IsCorpus 1 _ _ (invalid_values q) h
            (append_values-IsCorpus 0 size vs (invalid_values q) h c)))

kem_values : All (λ v. kem_q ≤ v) (invalid_values kem_q)
kem_values = (
  omega arith,
  (
    omega arith,
    (omega arith, (omega arith, (omega arith, (omega arith, (omega arith, (omega arith, tt)))))),
  ),
)

dsa_values : All (λ v. dsa_q ≤ v) (invalid_values dsa_q)
dsa_values = (
  omega arith,
  (
    omega arith,
    (omega arith, (omega arith, (omega arith, (omega arith, (omega arith, (omega arith, tt)))))),
  ),
)

start-IsCorpus : IsCorpus 0 []
start-IsCorpus = record { numbered = tt; right = tt; length_is = refl }

-- When every draw is below its bound, the corpus is built: 322 vectors, numbered from zero, each
-- either the butterfly's own answer for its modulus with 24 cycles and no fault, or a fault with
-- zero outputs on operands for which the butterfly raises or a modulus that does not exist.
pub build_vectors-IsCorpus :
    (draw : ℕ → ℕ → ℕ)
    → ((n q : ℕ) → 1 ≤ q → draw n q < q)
    → (vs : List Vector) × (build_vectors draw ≡ ok vs) × IsCorpus 322 vs
unfolding build_vectors
build_vectors-IsCorpus draw below =
    Yields-bind 0 kem_q refl (inl refl) 136 322 (append_block draw 0 kem_q 0 []) _ kem second
  where
    kem : Yields 136 (append_block draw 0 kem_q 0 [])
    kem =
        append_block-Yields 0 kem_q refl (inl refl) draw (λ n. below n kem_q (omega arith)) 0 0 []
          (edge_inputs-Below kem_q (inl refl)) start-IsCorpus

    tail :
        (valid : List Vector)
        → IsCorpus 272 valid
        → IsCorpus 322 (
            append_invalid 3
              (append_invalid 2
                (append_malformed 1 dsa_q (append_malformed 0 kem_q valid))
                (0, 0, 0))
              (0, 0, 0))
    tail valid c =
        append_invalid-IsCorpus 3 321 _ (0, 0, 0) (λ q e. absurd (cc))
          (append_invalid-IsCorpus 2 320 _ (0, 0, 0) (λ q e. absurd (cc))
            (append_malformed-IsCorpus 1 dsa_q refl 296 _ dsa_values
              (append_malformed-IsCorpus 0 kem_q refl 272 valid kem_values c)))

    second :
        (ks : List Vector)
        → IsCorpus 136 ks
        → Yields 322 (
            append_block draw 1 dsa_q (3 * random_cases_per_modulus) ks >>= λ valid. ok (
              append_invalid 3
                (append_invalid 2
                  (append_malformed 1 dsa_q (append_malformed 0 kem_q valid))
                  (0, 0, 0))
                (0, 0, 0)))
    second ks c =
        Yields-bind 1 dsa_q refl (inr refl) 272 322
          (append_block draw 1 dsa_q (3 * random_cases_per_modulus) ks) _
          (append_block-Yields 1 dsa_q refl (inr refl) draw (λ n. below n dsa_q (omega arith)) 136
            (3 * random_cases_per_modulus) ks (edge_inputs-Below dsa_q (inr refl)) c)
          (λ valid c'. (_, refl, tail valid c'))
