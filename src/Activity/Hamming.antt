-- ===== src/Activity/Hamming.antt =====
-- The Hamming distance of tools/power_trace_from_vcd.py is a distance.
use lca.Prelude.{
  ℕ, zero, suc, ◌+◌, ◌-◌, ◌≤◌, ◌<◌, ◌≡◌, ◌↔◌, ◌∙◌, refl, ap, sym, [], ◌∷◌, arith, length, drop,
  replicate, length-replicate, length-append, pos,
}
use lca.Text.{Text, lower}
use lca.Vcd.{normalise_vector, extend_vector, fill_of}
use lca.Activity.Defs.{count_differences, hamming_distance}

count_differences_comm : (s t : Text) → count_differences s t ≡ count_differences t s
unfolding count_differences
count_differences_comm [] [] = refl
count_differences_comm [] (y ∷ t) = refl
count_differences_comm (x ∷ s) [] = refl
count_differences_comm (x ∷ s) (y ∷ t) = ground (arith, count_differences_comm s t)

count_differences-le : (s t : Text) → count_differences s t ≤ length s
unfolding count_differences
count_differences-le [] t = omega arith
count_differences-le (x ∷ s) [] = omega arith
count_differences-le (x ∷ s) (y ∷ t) = ground (arith, count_differences-le s t)

count_differences-zero : (s : Text) → count_differences s s ≡ 0
unfolding count_differences
count_differences-zero [] = refl
count_differences-zero (x ∷ s) = ground (arith, count_differences-zero s)

count_differences-eq : (s t : Text) → length s ≡ length t → count_differences s t ≡ 0 → s ≡ t
unfolding count_differences
count_differences-eq [] [] e h = refl
count_differences-eq [] (y ∷ t) e h = absurd (omega arith)
count_differences-eq (x ∷ s) [] e h = absurd (omega arith)
count_differences-eq (x ∷ s) (y ∷ t) e h = ground (arith, count_differences-eq s t)

count_differences_triangle :
    (s t u : Text)
    → length s ≡ length t
    → length t ≡ length u
    → count_differences s u ≤ count_differences s t + count_differences t u
unfolding count_differences
count_differences_triangle [] t u e k = omega arith
count_differences_triangle (x ∷ s) [] u e k = absurd (omega arith)
count_differences_triangle (x ∷ s) (y ∷ t) [] e k = absurd (omega arith)
count_differences_triangle (x ∷ s) (y ∷ t) (z ∷ u) e k =
    ground (arith, count_differences_triangle s t u)

length-lower : (s : Text) → length (lower s) ≡ length s
unfolding lower
length-lower [] = refl
length-lower (c ∷ s) = ap suc (length-lower s)

length-drop_le : (n : ℕ) (s : Text) → length (drop n s) ≡ length s - n
length-drop_le zero s = omega arith
length-drop_le (suc n) [] = omega arith
length-drop_le (suc n) (c ∷ s) = omega (arith, length-drop_le n s)

length-extend_vector : (value : Text) (w : ℕ) → length (extend_vector value (pos (suc w))) ≡ suc w
length-extend_vector value w = ground (
  arith,
  length-append (replicate (suc w - length value) (fill_of value)) value,
  length-replicate (suc w - length value) (fill_of value),
  length-drop_le (length value - suc w) value,
)

-- A value normalised to a positive width has that many characters.
pub length-normalise_vector :
    (value : Text) (w : ℕ) → 0 < w → length (normalise_vector value (pos w)) ≡ w
unfolding normalise_vector
length-normalise_vector value zero h = absurd (omega arith)
length-normalise_vector value (suc w) h = go (lower value) refl
  where
    go : (s : Text) → lower value ≡ s → length (normalise_vector value (pos (suc w))) ≡ suc w
    go [] e = rw (e, normalise_vector) (length-replicate (suc w) b'x')
    go (c ∷ s) e = rw (e, normalise_vector) (length-extend_vector (c ∷ s) w)

hamming_distance_same :
    (s t : Text) → length s ≡ length t → hamming_distance s t ≡ count_differences s t
unfolding hamming_distance
hamming_distance_same s t e = ground arith

-- On values of one width the distance is zero exactly between equal values, is symmetric, is at
-- most the width, and obeys the triangle inequality.
pub hamming_distance_metric :
    (s t u : Text)
    → length s ≡ length t
    → length t ≡ length u
    → ((hamming_distance s t ≡ 0) ↔ (s ≡ t))
      × (hamming_distance s t ≡ hamming_distance t s)
      × (hamming_distance s t ≤ length s)
      × (hamming_distance s u ≤ hamming_distance s t + hamming_distance t u)
hamming_distance_metric s t u e k =
    rw
      (
        hamming_distance_same s t e,
        hamming_distance_same t s (sym e),
        hamming_distance_same s u (e ∙ k),
        hamming_distance_same t u k,
      )
      (
        (count_differences-eq s t e, λ p. rw p (count_differences-zero t)),
        count_differences_comm s t,
        count_differences-le s t,
        count_differences_triangle s t u e k,
      )
