-- ===== src/Vectors/Answers.antt =====
-- The valid vectors of the corpus.
use lca.Prelude.{
  ℕ, zero, suc, ◌+◌, ◌-◌, ◌≤◌, ◌<◌, ◌≡◌, refl, sym, subst, inl, List, [], ◌∷◌, ◌++◌, pos, Result,
  ok, ◌>>=◌, arith, All, length, some,
}
use native.Mathlib.Nat.{mod-lt}
use lca.Modarith.{Error, butterfly, ButterflyResult, butterfly_lem, IsSupported}
use lca.Vectors.Defs.{
  Vector, valid_vector, valid_case, edge_inputs, append_valid, append_edges, append_random,
  append_block, random_cases_per_modulus,
}
use lca.Vectors.Corpus.{modulus_of, IsAnswer, IsCorpus, IsCorpus-append}

abbrev pub Yields : ℕ → Result Error (List Vector) → Type 0
Yields size r = (vs : List Vector) × (r ≡ ok vs) × IsCorpus size vs

abbrev pub Below : ℕ → ℕ × ℕ × ℕ → Type 0
Below q (a, b, w) = (a < q) × (b < q) × (w < q)

module _ (mid q : ℕ) (selected : modulus_of mid ≡ some q) (supported : IsSupported q) where
  append_valid-ok :
      (vs : List Vector) (a b w : ℕ) (r : ButterflyResult)
      → butterfly (pos a) (pos b) (pos w) (pos q) ≡ ok r
      → append_valid mid q vs (a, b, w) ≡ ok (vs ++ valid_vector (length vs) mid a b w r ∷ [])
  unfolding append_valid valid_case
  append_valid-ok vs a b w r h = rw h refl

  valid_vector-IsAnswer :
      (id a b w : ℕ) (r : ButterflyResult)
      → butterfly (pos a) (pos b) (pos w) (pos q) ≡ ok r
      → IsAnswer (valid_vector id mid a b w r)
  valid_vector-IsAnswer id a b w r h = record {
    modulus = q;
    selected = selected;
    result = r;
    computed = h;
    outputs = (refl, refl);
    no_fault = refl;
    latency = refl;
  }

  append_valid-Yields :
      (size : ℕ) (vs : List Vector) (inputs : ℕ × ℕ × ℕ)
      → Below q inputs
      → IsCorpus size vs
      → Yields (suc size) (append_valid mid q vs inputs)
  append_valid-Yields size vs (a, b, w) (ha, hb, hw) c = (
    _,
    append_valid-ok vs a b w _ (butterfly_lem a b w q supported ha hb hw),
    IsCorpus-append size vs _ c refl (
        inl (valid_vector-IsAnswer (length vs) a b w _ (butterfly_lem a b w q supported ha hb hw))),
  )

  pub Yields-bind :
      (size more : ℕ) (r : Result Error (List Vector))
      (f : List Vector → Result Error (List Vector))
      → Yields size r
      → ((vs : List Vector) → IsCorpus size vs → Yields more (f vs))
      → Yields more (r >>= f)
  Yields-bind size more r f (vs, e, c) g = subst (λ x. Yields more (x >>= f)) (sym e) (g vs c)

  append_edges-Yields :
      (size : ℕ) (vs : List Vector) (inputs : List (ℕ × ℕ × ℕ))
      → All (Below q) inputs
      → IsCorpus size vs
      → Yields (size + length inputs) (append_edges mid q vs inputs)
  unfolding append_edges
  append_edges-Yields size vs [] h c = (vs, refl, subst (λ n. IsCorpus n vs) (omega arith) c)
  append_edges-Yields size vs (i ∷ inputs) h c =
      Yields-bind (suc size) (size + length (i ∷ inputs)) (append_valid mid q vs i) _
        (append_valid-Yields size vs i h.0 c)
        (λ longer c'.
          subst (λ n. Yields n (append_edges mid q longer inputs)) (omega arith)
            (append_edges-Yields (suc size) longer inputs h.1 c'))

  module _ (draw : ℕ → ℕ → ℕ) (below : (n : ℕ) → draw n q < q) where
    append_random-Yields :
        (size drawn cases : ℕ) (vs : List Vector)
        → IsCorpus size vs
        → Yields (size + cases) (append_random draw mid q drawn cases vs)
    unfolding append_random
    append_random-Yields size drawn zero vs c =
        (vs, refl, subst (λ n. IsCorpus n vs) (omega arith) c)
    append_random-Yields size drawn (suc cases) vs c =
        Yields-bind (suc size) (size + suc cases)
          (append_valid mid q vs (draw drawn q, draw (drawn + 1) q, draw (drawn + 2) q)) _
          (append_valid-Yields size vs _ (below drawn, below (drawn + 1), below (drawn + 2)) c)
          (λ longer c'.
            subst (λ n. Yields n (append_random draw mid q (drawn + 3) cases longer)) (omega arith)
              (append_random-Yields (suc size) (drawn + 3) cases longer c'))

    pub append_block-Yields :
        (size drawn : ℕ) (vs : List Vector)
        → All (Below q) (edge_inputs q)
        → IsCorpus size vs
        → Yields (size + 136) (append_block draw mid q drawn vs)
    append_block-Yields size drawn vs h c =
        Yields-bind (size + 8) (size + 136) (append_edges mid q vs (edge_inputs q)) _
          (append_edges-Yields size vs (edge_inputs q) h c)
          (λ edged c'.
            subst (λ n. Yields n (append_random draw mid q drawn random_cases_per_modulus edged))
              (omega arith)
              (append_random-Yields (size + 8) drawn random_cases_per_modulus edged c'))

pub edge_inputs-Below : (q : ℕ) → IsSupported q → All (Below q) (edge_inputs q)
edge_inputs-Below q s = (
  (n0, n0, n0),
  (
    (n1, n0, n0),
    (
      (n0, n1, n1),
      (
        (n1, n2, n3),
        (
          (last, n0, last),
          (
            (last, last, last),
            (
              (omega (arith, big), omega (arith, big), omega (arith, big)),
              ((mod-lt 1_234_567 n0, mod-lt 7_654_321 n0, mod-lt 543_210 n0), tt),
            ),
          ),
        ),
      ),
    ),
  ),
)
  where
    big : 4 ≤ q
    big = ground (arith, s)

    n0 : 0 < q
    n0 = omega (arith, big)

    n1 : 1 < q
    n1 = omega (arith, big)

    n2 : 2 < q
    n2 = omega (arith, big)

    n3 : 3 < q
    n3 = omega (arith, big)

    last : q - 1 < q
    last = omega (arith, big)
