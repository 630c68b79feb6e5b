-- ===== src/Vectors/Examples.antt =====
-- Tests of the corpus, and the theorem at a fixed source of draws.
use native.Mathlib.Nat.{mod-lt}
use lca.Prelude.{ℕ, ◌%◌, ◌≡◌, refl, List, [], ◌∷◌, ok, ◌*◌, ◌+◌}
use lca.Vectors.Defs.{Vector, invalid_values, build_vectors}
use lca.Vectors.Corpus.{IsCorpus}
use lca.Vectors.Whole.{build_vectors-IsCorpus}

abbrev stride : ℕ → ℕ → ℕ
stride n q = (n * 7919 + 12_345) % q

invalid_kem : invalid_values 3329 ≡ 3329 ∷ 3330 ∷ 3331 ∷ 3336 ∷ 3360 ∷ 3584 ∷ 5377 ∷ 16_777_215 ∷ []
invalid_kem = refl

build_vectors-IsCorpus_example :
    (vs : List Vector) × (build_vectors stride ≡ ok vs) × IsCorpus 322 vs
build_vectors-IsCorpus_example =
    build_vectors-IsCorpus stride (λ n q h. mod-lt (n * 7919 + 12_345) h)
