-- ===== src/Tvla/Points.antt =====
-- The points that `assess` makes of the statistics, and the number of samples that it compares.
use lca.Prelude.{
  ℕ, zero, suc, ◌+◌, ◌≤◌, min, ◌≡◌, refl, sym, leb, subst, ap, List, [], ◌∷◌, some, ok, arith, All,
  length, get_elem?, Bool, true, ◌⊎◌, inl, inr, Bool-cases,
}
use lca.Floats.{Floats}
use lca.Tvla.Statistics.{Welford, PointResult, statistic, welch_t}
use lca.Tvla.Assess.{point_with, points_from, all_are, least, common_length}

plus_zero : (n : ℕ) → n ≡ n + 0
plus_zero n = omega arith

plus_suc : (n i : ℕ) → n + 1 + i ≡ n + suc i
plus_suc n i = omega arith

module _ (F : Floats) where
  abbrev pub AllSeen : List (Welford F) → Type 0
  AllSeen stats = All (λ (w : Welford F). 2 ≤ w.count) stats

  abbrev pub point_of : ℕ → Welford F → Welford F → PointResult F
  point_of index left right = point_with F index left right (statistic F left right)

  abbrev pub all_points : ℕ → List (Welford F) → List (Welford F) → List (PointResult F)
  all_points index (left ∷ lefts) (right ∷ rights) =
      point_of index left right ∷ all_points (index + 1) lefts rights
  all_points index lefts rights = []

  pub points_from-all_points :
      (index : ℕ) (lefts rights : List (Welford F))
      → AllSeen lefts
      → AllSeen rights
      → points_from F index lefts rights ≡ ok (all_points index lefts rights)
  unfolding points_from welch_t
  points_from-all_points index [] rights h k = refl
  points_from-all_points index (left ∷ lefts) [] h k = refl
  points_from-all_points index (left ∷ lefts) (right ∷ rights) (l, h) (r, k) =
      ground (arith, points_from-all_points (index + 1) lefts rights h k)

  pub get_elem-all_points :
      (index : ℕ) (lefts rights : List (Welford F)) (i : ℕ) (left right : Welford F)
      → get_elem? lefts i ≡ some left
      → get_elem? rights i ≡ some right
      → get_elem? (all_points index lefts rights) i ≡ some (point_of (index + i) left right)
  get_elem-all_points index [] rights i left right h k = absurd (cc)
  get_elem-all_points index (l ∷ lefts) [] i left right h k = absurd (cc)
  get_elem-all_points index (l ∷ lefts) (r ∷ rights) zero left right h k =
      subst (λ m. some (point_of index l r) ≡ some (point_of m left right)) (plus_zero index) (cc)
  get_elem-all_points index (l ∷ lefts) (r ∷ rights) (suc i) left right h k =
      subst (λ m. get_elem? (all_points (index + 1) lefts rights) i ≡ some (point_of m left right))
        (plus_suc index i) (get_elem-all_points (index + 1) lefts rights i left right h k)

  pub length-all_points :
      (index : ℕ) (lefts rights : List (Welford F))
      → length lefts ≡ length rights
      → length (all_points index lefts rights) ≡ length lefts
  length-all_points index [] rights h = refl
  length-all_points index (l ∷ lefts) [] h = absurd (omega (arith, h))
  length-all_points index (l ∷ lefts) (r ∷ rights) h =
      ap suc (length-all_points (index + 1) lefts rights (omega (arith, h)))

-- A length at which all traces are compared: the shortest, and the only one unless truncation is
-- asked for.
pub record IsCommon (truncate : Bool) (n : ℕ) (lengths : List ℕ) : Type 0 where
  pub shortest : All (λ m. n ≤ m) lengths
  pub reached : (i : ℕ) × (get_elem? lengths i ≡ some n)
  pub agreed : (truncate ≡ true) ⊎ All (λ m. m ≡ n) lengths

all_are-All : (n : ℕ) (ms : List ℕ) → all_are n ms ≡ true → All (λ m. m ≡ n) ms
all_are-All n [] h = tt
all_are-All n (m ∷ ms) h = (ground arith, all_are-All n ms (ground arith))

All-all_are : (n : ℕ) (ms : List ℕ) → All (λ m. m ≡ n) ms → all_are n ms ≡ true
All-all_are n [] h = refl
All-all_are n (m ∷ ms) (e, h) = ground (arith, All-all_are n ms h)

least-bound : (n : ℕ) (ms : List ℕ) → (least n ms ≤ n) × All (λ m. least n ms ≤ m) ms
least-bound n [] = (omega arith, tt)
least-bound n (m ∷ ms) =
    let (bound, bounds) = least-bound (min n m) ms in
    (omega (arith, bound), (omega (arith, bound), bounds))

least-reached : (n : ℕ) (ms : List ℕ) → (i : ℕ) × (get_elem? (n ∷ ms) i ≡ some (least n ms))
least-reached n [] = (0, refl)
least-reached n (m ∷ ms) = let (i, e) = least-reached (min n m) ms in place i e
  where
    place :
        (i : ℕ)
        → get_elem? (min n m ∷ ms) i ≡ some (least (min n m) ms)
        → (j : ℕ) × (get_elem? (n ∷ m ∷ ms) j ≡ some (least (min n m) ms))
    place zero e = elim (Bool-cases (leb n m)) [
      | inl h ↦ (0, ground arith)
      | inr h ↦ (1, ground arith)
    ]
    place (suc i) e = (suc (suc i), e)

All-get_elem : (P : ℕ → Type 0) (ms : List ℕ) (i a : ℕ) → All P ms → get_elem? ms i ≡ some a → P a
All-get_elem P [] i a h e = absurd (cc)
All-get_elem P (m ∷ ms) zero a h e = subst P (ground arith) h.0
All-get_elem P (m ∷ ms) (suc i) a h e = All-get_elem P ms i a h.1 e

same-bounds : (n : ℕ) (ms : List ℕ) → All (λ m. m ≡ n) ms → All (λ m. n ≤ m) ms
same-bounds n [] h = tt
same-bounds n (m ∷ ms) (e, h) = (omega (arith, e), same-bounds n ms h)

all_same :
    (truncate : Bool) (m : ℕ) (ms : List ℕ) → all_are m ms ≡ true → IsCommon truncate m (m ∷ ms)
all_same truncate m ms h =
    let same = all_are-All m ms h in
    record {
      shortest = (omega arith, same-bounds m ms same);
      reached = (0, refl);
      agreed = inr (refl, same);
    }

shortest_of : (m : ℕ) (ms : List ℕ) → IsCommon true (least m ms) (m ∷ ms)
shortest_of m ms = record {
  shortest = least-bound m ms;
  reached = least-reached m ms;
  agreed = inl refl;
}

IsCommon-unique : (s t : Bool) (m n : ℕ) (ms : List ℕ) → IsCommon s m ms → IsCommon t n ms → m ≡ n
IsCommon-unique s t m n ms c d =
    let (i, e) = c.reached in
    let (j, f) = d.reached in
    omega (
      arith,
      All-get_elem (λ k. n ≤ k) ms i m d.shortest e,
      All-get_elem (λ k. m ≤ k) ms j n c.shortest f,
    )

pub common_length-IsCommon :
    (truncate : Bool) (n : ℕ) (lengths : List ℕ)
    → common_length truncate lengths ≡ ok n
    → IsCommon truncate n lengths
unfolding common_length
common_length-IsCommon truncate n [] h = absurd (ground arith)
common_length-IsCommon truncate n (m ∷ ms) h = elim (Bool-cases (all_are m ms)) [
  | inl same ↦
      subst (λ k. IsCommon truncate k (m ∷ ms)) (ground arith) (all_same truncate m ms same)
  | inr differ ↦ elim (Bool-cases truncate) [
    | inl asked ↦ rw asked (subst (λ k. IsCommon true k (m ∷ ms)) (ground arith) (shortest_of m ms))
    | inr kept ↦ absurd (ground arith)
  ]
]

pub IsCommon-common_length :
    (truncate : Bool) (n : ℕ) (lengths : List ℕ)
    → IsCommon truncate n lengths
    → common_length truncate lengths ≡ ok n
unfolding common_length
IsCommon-common_length truncate n [] c = absurd (let (i, e) = c.reached in cc)
IsCommon-common_length truncate n (m ∷ ms) c = elim (Bool-cases (all_are m ms)) [
  | inl same ↦
      rw (same, IsCommon-unique truncate truncate m n (m ∷ ms) (all_same truncate m ms same) c) refl
  | inr differ ↦ elim c.agreed [
    | inl asked ↦
        rw
          (
            differ,
            asked,
            IsCommon-unique true truncate (least m ms) n (m ∷ ms) (shortest_of m ms) c,
          )
          refl
    | inr (e, all) ↦
        absurd (ground (arith, All-all_are m ms (subst (λ k. All (λ a. a ≡ k) ms) (sym e) all)))
  ]
]
