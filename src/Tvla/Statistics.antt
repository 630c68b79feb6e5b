-- ===== src/Tvla/Statistics.antt =====
-- tools/tvla.py: `Welford`, `PointResult`, `TvlaResult` and `welch_t`. `math.sqrt` of the sum of two
-- variances is taken to succeed. A verdict holds its numbers, not its text.
use lca.Prelude.{
  ℕ, ◌+◌, ◌-◌, ltb, ◌||◌, Bool, true, false, if◌then◌else◌, List, [], ◌∷◌, map, Option, none, some,
  pos, Result, ok, ◌>>◌, raise_if, length,
}
use lca.Floats.{Floats}
use lca.Text.{Text}

pub data TvlaError : Type 0 where
  too_few_traces differing_lengths index_error : TvlaError
  no_pointer not_an_array non_numeric : TvlaError

-- The items that a comprehension keeps.
abbrev pub keep {ℓ} : {A : Type ℓ} → (A → Bool) → List A → List A
keep test [] = []
keep test (x ∷ xs) = let rest = keep test xs in if test x then x ∷ rest else rest

abbrev pub nonempty {ℓ} : {A : Type ℓ} → List A → Bool
nonempty [] = false
nonempty (x ∷ xs) = true

module _ (F : Floats) where
  open F use {Float, of_int, add, sub, mul, div, sqrt, abs, inf, lt, eq}

  pub record Welford : Type 0 where
    pub count : ℕ
    pub mean : Float
    pub m2 : Float

  abbrev pub no_values : Welford
  no_values = record { count = 0; mean = of_int (pos 0); m2 = of_int (pos 0) }

  unfoldable pub update : Welford → Float → Welford
  update w value =
      let count = w.count + 1 in
      let delta = sub value w.mean in
      let mean = add w.mean (div delta (of_int (pos count))) in
      record { count = count; mean = mean; m2 = add w.m2 (mul delta (sub value mean)) }

  unfoldable pub variance : Welford → Float
  variance w = if ltb w.count 2 then of_int (pos 0) else div w.m2 (of_int (pos (w.count - 1)))

  pub record PointResult : Type 0 where
    pub index : ℕ
    pub t : Option Float
    pub mean_fixed : Float
    pub mean_random : Float
    pub var_fixed : Float
    pub var_random : Float
    pub degenerate : Bool

  unfoldable pub abs_t : PointResult → Float
  abs_t p = elim p.t [ none ↦ if p.degenerate then inf else of_int (pos 0) | some t ↦ abs t ]

  pub record TvlaResult : Type 0 where
    pub threshold : Float
    pub n_fixed : ℕ
    pub n_random : ℕ
    pub points : List PointResult
    pub fixed_name : Text
    pub random_name : Text

  abbrev pub has_t : PointResult → Bool
  has_t p = elim p.t [ none ↦ false | some t ↦ true ]

  unfoldable pub finite_abs_t : TvlaResult → List Float
  unfolding abs_t
  finite_abs_t r = map abs_t (keep has_t r.points)

  unfoldable pub degenerate_points : TvlaResult → List PointResult
  degenerate_points r = keep (λ (p : PointResult). p.degenerate) r.points

  abbrev pub exceeds : Float → PointResult → Bool
  unfolding abs_t
  exceeds threshold p = lt threshold (abs_t p)

  unfoldable pub exceeding : TvlaResult → List PointResult
  unfolding abs_t
  exceeding r = keep (exceeds r.threshold) r.points

  -- `max(xs)`: the first of the largest.
  abbrev pub largest : Float → List Float → Float
  largest x [] = x
  largest x (y ∷ ys) = largest (if lt x y then y else x) ys

  abbrev pub largest? : List Float → Option Float
  largest? [] = none
  largest? (x ∷ xs) = some (largest x xs)

  unfoldable pub max_abs_t : TvlaResult → Float
  unfolding abs_t
  max_abs_t r = elim (largest? (map abs_t r.points)) [ none ↦ of_int (pos 0) | some x ↦ x ]

  abbrev pub largest_point : PointResult → List PointResult → PointResult
  unfolding abs_t
  largest_point p [] = p
  largest_point p (q ∷ qs) = largest_point (if lt (abs_t p) (abs_t q) then q else p) qs

  -- `max(points, key=...)`: none is the ValueError on no points.
  abbrev pub max_point : TvlaResult → Option PointResult
  max_point r = elim r.points [ [] ↦ none | p ∷ ps ↦ some (largest_point p ps) ]

  unfoldable pub leaking : TvlaResult → Bool
  unfolding exceeding
  leaking r = nonempty (exceeding r)

  pub data Magnitude : Type 0 where
    infinite_at : ℕ → Option Float → Magnitude
    at_most : Float → Magnitude

  pub data Verdict : Type 0 where
    leakage_detected : ℕ → ℕ → Magnitude → Verdict
    no_leakage_detected : ℕ → Verdict

  unfoldable pub verdict : TvlaResult → Verdict
  unfolding leaking exceeding degenerate_points finite_abs_t max_abs_t
  verdict r =
      let total = length r.points in
      let count = length (exceeding r) in
      if leaking r
      then leakage_detected count total (
          if nonempty (degenerate_points r)
          then infinite_at (length (degenerate_points r)) (largest? (finite_abs_t r))
          else at_most (max_abs_t r))
      else no_leakage_detected total

  abbrev pub denominator : Welford → Welford → Float
  unfolding variance
  denominator fixed random_set = sqrt (
      add (div (variance fixed) (of_int (pos fixed.count)))
        (div (variance random_set) (of_int (pos random_set.count))))

  -- `t` and whether the point is degenerate, of two sets that are large enough.
  abbrev pub statistic : Welford → Welford → Option Float × Bool
  statistic fixed random_set =
      let difference = sub fixed.mean random_set.mean in
      let d = denominator fixed random_set in
      if eq d (of_int (pos 0))
      then if eq difference (of_int (pos 0)) then (some (of_int (pos 0)), false) else (none, true)
      else (some (div difference d), false)

  unfoldable pub welch_t : Welford → Welford → Result TvlaError (Option Float × Bool)
  welch_t fixed random_set = do
    raise_if (ltb fixed.count 2 || ltb random_set.count 2) too_few_traces
    ok (statistic fixed random_set)
