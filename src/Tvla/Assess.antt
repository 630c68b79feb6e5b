-- ===== src/Tvla/Assess.antt =====
-- tools/tvla.py: `load_series` on a document that is read, and `assess`. `float(text)` is an
-- argument, none for its ValueError; the float of an integer is taken to exist.
use lca.Prelude.{
  ℕ, ◌+◌, ◌==◌, ltb, ◌||◌, ◌&&◌, Bool, true, not, if◌then◌else◌, List, [], ◌∷◌, ◌++◌, map, Option,
  none, some, Result, ok, err, ◌>>=◌, ◌>>◌, raise_if, map_result, length, replicate, min,
}
use lca.Floats.{Floats}
use lca.Text.{Text, split_on}
use lca.Json.{Json, bool, int, float, string, array, object, nil, item, get, int_of_bool, to_list}
use lca.Tvla.Statistics.{
  TvlaError, too_few_traces, differing_lengths, index_error, no_pointer, not_an_array, non_numeric,
  Welford, no_values, update, variance, PointResult, TvlaResult, welch_t,
}

abbrev pub all_are : ℕ → List ℕ → Bool
all_are n [] = true
all_are n (m ∷ ms) = m == n && all_are n ms

-- `min(lengths)`, of a list that is not empty.
abbrev pub least : ℕ → List ℕ → ℕ
least n [] = n
least n (m ∷ ms) = least (min n m) ms

-- The number of samples that are compared. Each trace set holds a trace, so the set of lengths is
-- not empty.
unfoldable pub common_length : Bool → List ℕ → Result TvlaError ℕ
common_length truncate [] = err too_few_traces
common_length truncate (n ∷ ns) =
    if not (all_are n ns)
    then if not truncate then err differing_lengths else ok (least n ns)
    else ok n

module _ (F : Floats) (float_of : Text → Option F.Float) where
  open F use {Float, of_int}

  unfoldable pub dig : Json Float → List Text → Result TvlaError (Json Float)
  dig node [] = ok node
  dig (object fs) (key ∷ keys) = elim (get key fs) [
    | none ↦ err no_pointer
    | some inner ↦ dig inner keys
  ]
  dig node (key ∷ keys) = err no_pointer

  -- `float(value)`
  abbrev pub to_float : Json Float → Result TvlaError Float
  to_float (bool b) = ok (of_int (int_of_bool b))
  to_float (int n) = ok (of_int n)
  to_float (float x) = ok x
  to_float (string s) = elim (float_of s) [ none ↦ err non_numeric | some x ↦ ok x ]
  to_float v = err non_numeric

  abbrev pub series_of : Json Float → Result TvlaError (List Float)
  series_of (array nil) = err not_an_array
  series_of (array (item x xs)) = map_result to_float (x ∷ to_list xs)
  series_of v = err not_an_array

  unfoldable pub load_series : Text → Json Float → Result TvlaError (List Float)
  unfolding dig split_on
  load_series pointer payload = dig payload (split_on b'.' pointer) >>= series_of

module _ (F : Floats) where
  open F use {Float}

  -- `stats[index].update(series[index])` for every index of the statistics.
  unfoldable pub update_each : List (Welford F) → List Float → Result TvlaError (List (Welford F))
  unfolding update
  update_each [] series = ok []
  update_each (w ∷ ws) [] = err index_error
  update_each (w ∷ ws) (x ∷ series) = do
    updated ← update_each ws series
    ok (update F w x ∷ updated)

  unfoldable pub update_stats :
      List (Welford F) → List (List Float) → Result TvlaError (List (Welford F))
  unfolding update_each
  update_stats stats [] = ok stats
  update_stats stats (series ∷ later) = do
    updated ← update_each stats series
    update_stats updated later

  abbrev pub point_with : ℕ → Welford F → Welford F → Option Float × Bool → PointResult F
  unfolding variance
  point_with index left right (value, degenerate) = record {
    index = index;
    t = value;
    mean_fixed = left.mean;
    mean_random = right.mean;
    var_fixed = variance F left;
    var_random = variance F right;
    degenerate = degenerate;
  }

  -- The loop over `enumerate(zip(fixed_stats, random_stats))`, from an index on.
  unfoldable pub points_from :
      ℕ → List (Welford F) → List (Welford F) → Result TvlaError (List (PointResult F))
  unfolding welch_t
  points_from index (left ∷ lefts) (right ∷ rights) = do
    value ← welch_t F left right
    points ← points_from (index + 1) lefts rights
    ok (point_with index left right value ∷ points)
  points_from index lefts rights = ok []

  pub record Options : Type 0 where
    pub threshold : Float
    pub truncate : Bool
    pub fixed_name : Text
    pub random_name : Text

  -- `assess` on the series that are loaded.
  unfoldable pub compare_series :
      Options → List (List Float) → List (List Float) → Result TvlaError (TvlaResult F)
  unfolding common_length update_stats points_from
  compare_series options fixed_series random_series = do
    samples ← common_length options.truncate (map length (fixed_series ++ random_series))
    fixed_stats ← update_stats (replicate samples (no_values F)) fixed_series
    random_stats ← update_stats (replicate samples (no_values F)) random_series
    points ← points_from 0 fixed_stats random_stats
    ok record {
      threshold = options.threshold;
      n_fixed = length fixed_series;
      n_random = length random_series;
      points = points;
      fixed_name = options.fixed_name;
      random_name = options.random_name;
    }

module _ (F : Floats) (float_of : Text → Option F.Float) where
  unfoldable pub assess :
      Options F → Text → List (Json F.Float) → List (Json F.Float) → Result TvlaError (TvlaResult F)
  unfolding load_series compare_series
  assess options pointer fixed random = do
    raise_if (ltb (length fixed) 2 || ltb (length random) 2) too_few_traces
    fixed_series ← map_result (load_series F float_of pointer) fixed
    random_series ← map_result (load_series F float_of pointer) random
    compare_series F options fixed_series random_series
