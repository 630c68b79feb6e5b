-- ===== src/Tvla/Whole.antt =====
-- What `compare_series` returns.
use lca.Prelude.{
  ℕ, zero, suc, ◌+◌, ◌≤◌, ◌<◌, ◌≡◌, refl, subst, sym, ◌∙◌, List, [], ◌∷◌, ◌++◌, map, some, Result,
  ok, arith, All, length, length-replicate, get_elem?, replicate, map_result, Result-cases, inl,
  inr,
}
use lca.Floats.{Floats}
use lca.Tvla.Statistics.{Welford, no_values, TvlaResult}
use lca.Tvla.Assess.{Options, compare_series, update_stats}
use lca.Tvla.Columns.{
  column, observe, final, AreLong, AllCount, update_stats-final, length-final, get_elem-final,
  final-AllCount,
}
use lca.Tvla.Points.{
  AllSeen, point_of, all_points, points_from-all_points, get_elem-all_points, length-all_points,
  IsCommon, IsCommon-common_length,
}

pub length-map_result :
    {E : Type 0} {A B : Type 0} (f : A → Result E B) (xs : List A) (ys : List B)
    → map_result f xs ≡ ok ys
    → length ys ≡ length xs
length-map_result f [] [] h = refl
length-map_result f [] (y ∷ ys) h = absurd (ground arith)
length-map_result f (x ∷ xs) ys h = elim (Result-cases (f x)) [
  | inr (e, failed) ↦ absurd (ground arith)
  | inl (y, e) ↦ elim (Result-cases (map_result f xs)) [
    | inr (e', failed) ↦ absurd (ground arith)
    | inl (zs, e') ↦ ground (arith, length-map_result f xs zs e')
  ]
]

zero_plus : (n : ℕ) → 0 + n ≡ n
zero_plus n = omega arith

get_elem-replicate : {A : Type 0} (n i : ℕ) (a : A) → i < n → get_elem? (replicate n a) i ≡ some a
get_elem-replicate zero i a h = absurd (omega (arith, h))
get_elem-replicate (suc n) zero a h = refl
get_elem-replicate (suc n) (suc i) a h = get_elem-replicate n i a (omega (arith, h))

module _ (F : Floats) where
  open F use {Float}

  pub lengths-AreLong :
      (n : ℕ) (fs rs : List (List Float))
      → All (λ m. n ≤ m) (map length (fs ++ rs))
      → AreLong F n fs × AreLong F n rs
  lengths-AreLong n [] [] h = (tt, tt)
  lengths-AreLong n [] (r ∷ rs) (here, h) = (tt, (here, (lengths-AreLong n [] rs h).1))
  lengths-AreLong n (f ∷ fs) rs (here, h) = let (a, b) = lengths-AreLong n fs rs h in ((here, a), b)

  AreLong-less : (n m : ℕ) (fs : List (List Float)) → m ≤ n → AreLong F n fs → AreLong F m fs
  AreLong-less n m [] h k = tt
  AreLong-less n m (f ∷ fs) h (a, k) = (omega (arith, h, a), AreLong-less n m fs h k)

  replicate-AllCount : (n : ℕ) → AllCount F 0 (replicate n (no_values F))
  replicate-AllCount zero = tt
  replicate-AllCount (suc n) = (refl, replicate-AllCount n)

  AllCount-AllSeen :
      (n : ℕ) (stats : List (Welford F)) → 2 ≤ n → AllCount F n stats → AllSeen F stats
  AllCount-AllSeen n [] h k = tt
  AllCount-AllSeen n (w ∷ ws) h (e, k) = (omega (arith, h, e), AllCount-AllSeen n ws h k)

  -- The statistics that `assess` ends with, of one trace set.
  abbrev pub ended : ℕ → List (List Float) → List (Welford F)
  ended n traces = final F (replicate n (no_values F)) traces

  -- The statistic of one index, over the traces in order.
  abbrev pub seen : ℕ → List (List Float) → Welford F
  seen i traces = observe F (no_values F) (column F i traces)

  ended-ok :
      (n : ℕ) (traces : List (List Float))
      → AreLong F n traces
      → update_stats F (replicate n (no_values F)) traces ≡ ok (ended n traces)
  ended-ok n traces long =
      update_stats-final F (replicate n (no_values F)) traces
        (rw (length-replicate n (no_values F)) long)

  length-ended :
      (n : ℕ) (traces : List (List Float)) → AreLong F n traces → length (ended n traces) ≡ n
  length-ended n traces long =
      length-final F (replicate n (no_values F)) traces (rw (length-replicate n (no_values F)) long)
      ∙ length-replicate n (no_values F)

  ended-AllSeen :
      (n : ℕ) (traces : List (List Float)) → 2 ≤ length traces → AllSeen F (ended n traces)
  ended-AllSeen n traces h =
      AllCount-AllSeen (0 + length traces) _ (omega (arith, h))
        (final-AllCount F 0 (replicate n (no_values F)) traces (replicate-AllCount n))

  get_elem-ended :
      (n i : ℕ) (traces : List (List Float))
      → i < n
      → AreLong F n traces
      → get_elem? (ended n traces) i ≡ some (seen i traces)
  get_elem-ended n i traces h long =
      get_elem-final F (replicate n (no_values F)) traces i (no_values F)
        (get_elem-replicate n i (no_values F) h)
        (AreLong-less n (suc i) traces (omega (arith, h)) long)

  -- The result has one point for each of the first `n` indices, which holds the statistic of what
  -- the traces have at the index.
  pub record IsComparison (options : Options F) (n : ℕ) (fs rs : List (List Float))
      (r : TvlaResult F) : Type 0 where
    pub threshold : r.threshold ≡ options.threshold
    pub n_fixed : r.n_fixed ≡ length fs
    pub n_random : r.n_random ≡ length rs
    pub count : length r.points ≡ n
    pub points :
        (i : ℕ) → i < n → get_elem? r.points i ≡ some (point_of F i (seen i fs) (seen i rs))

  abbrev pub result_of : Options F → ℕ → List (List Float) → List (List Float) → TvlaResult F
  result_of options n fs rs = record {
    threshold = options.threshold;
    n_fixed = length fs;
    n_random = length rs;
    points = all_points F 0 (ended n fs) (ended n rs);
    fixed_name = options.fixed_name;
    random_name = options.random_name;
  }

  pub result_of-IsComparison :
      (options : Options F) (n : ℕ) (fs rs : List (List Float))
      → AreLong F n fs
      → AreLong F n rs
      → IsComparison options n fs rs (result_of options n fs rs)
  result_of-IsComparison options n fs rs lf lr = record {
    threshold = refl;
    n_fixed = refl;
    n_random = refl;
    count =
        length-all_points F 0 (ended n fs) (ended n rs)
          (length-ended n fs lf ∙ sym (length-ended n rs lr))
        ∙ length-ended n fs lf;
    points = λ i h.
        subst
          (λ k.
            get_elem? (all_points F 0 (ended n fs) (ended n rs)) i
            ≡ some (point_of F k (seen i fs) (seen i rs)))
          (zero_plus i)
          (get_elem-all_points F 0 (ended n fs) (ended n rs) i (seen i fs) (seen i rs)
            (get_elem-ended n i fs h lf) (get_elem-ended n i rs h lr));
  }

  pub compare_series-ok :
      (options : Options F) (n : ℕ) (fs rs : List (List Float))
      → 2 ≤ length fs
      → 2 ≤ length rs
      → IsCommon options.truncate n (map length (fs ++ rs))
      → compare_series F options fs rs ≡ ok (result_of options n fs rs)
  unfolding compare_series
  compare_series-ok options n fs rs f2 r2 common =
      let (lf, lr) = lengths-AreLong n fs rs common.shortest in
      rw
        (
          IsCommon-common_length options.truncate n (map length (fs ++ rs)) common,
          ended-ok n fs lf,
          ended-ok n rs lr,
          points_from-all_points F 0 (ended n fs) (ended n rs) (ended-AllSeen n fs f2)
              (ended-AllSeen n rs r2),
        )
        refl
