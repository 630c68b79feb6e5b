-- ===== src/Tvla/Report.antt =====
-- tools/tvla.py: `report_payload`, without its constant texts and the names of files, and the exit
-- status of `main`.
use lca.Prelude.{
  ℕ, ◌&&◌, Bool, if◌then◌else◌, List, map, Option, none, some, Result, ok, err, length,
}
use lca.Floats.{Floats}
use lca.Text.{Text}
use lca.Tvla.Statistics.{
  TvlaError, PointResult, TvlaResult, exceeds, exceeding, keep, nonempty, degenerate_points,
  finite_abs_t, leaking, largest?, max_abs_t, max_point, Verdict, verdict,
}

module _ (F : Floats) where
  open F use {Float, lt}

  pub record DegeneratePoint : Type 0 where
    pub index : ℕ
    pub mean_fixed : Float
    pub mean_random : Float

  pub record SampleRow : Type 0 where
    pub index : ℕ
    pub t : Option Float
    pub degenerate : Bool
    pub mean_fixed : Float
    pub mean_random : Float
    pub var_fixed : Float
    pub var_random : Float
    pub exceeds_threshold : Bool

  pub record Report : Type 0 where
    pub comparison : Text
    pub series_pointer : Text
    pub threshold : Float
    pub group_a_name : Text
    pub group_b_name : Text
    pub fixed : ℕ
    pub random : ℕ
    pub sample_points : ℕ
    pub points_exceeding_threshold : ℕ
    pub max_abs_t_reported : Option Float
    pub max_abs_t_finite : Option Float
    pub max_abs_t_index : Option ℕ
    pub degenerate : List DegeneratePoint
    pub is_leaking : Bool
    pub verdict_reached : Verdict F
    pub per_sample : List SampleRow

  abbrev pub degenerate_row : PointResult F → DegeneratePoint
  degenerate_row p = record {
    index = p.index;
    mean_fixed = p.mean_fixed;
    mean_random = p.mean_random;
  }

  abbrev pub sample_row : Float → PointResult F → SampleRow
  sample_row threshold p = record {
    index = p.index;
    t = p.t;
    degenerate = p.degenerate;
    mean_fixed = p.mean_fixed;
    mean_random = p.mean_random;
    var_fixed = p.var_fixed;
    var_random = p.var_random;
    exceeds_threshold = exceeds F threshold p;
  }

  unfoldable pub report_payload : Text → Text → TvlaResult F → Report
  unfolding exceeding degenerate_points finite_abs_t max_abs_t leaking verdict
  report_payload pointer label r = record {
    comparison = label;
    series_pointer = pointer;
    threshold = r.threshold;
    group_a_name = r.fixed_name;
    group_b_name = r.random_name;
    fixed = r.n_fixed;
    random = r.n_random;
    sample_points = length r.points;
    points_exceeding_threshold = length (exceeding F r);
    max_abs_t_reported = if nonempty (degenerate_points F r) then none else some (max_abs_t F r);
    max_abs_t_finite = largest? F (finite_abs_t F r);
    max_abs_t_index = elim (max_point F r) [ none ↦ none | some p ↦ some p.index ];
    degenerate = map degenerate_row (degenerate_points F r);
    is_leaking = leaking F r;
    verdict_reached = verdict F r;
    per_sample = map (sample_row r.threshold) r.points;
  }

  -- What `main` returns.
  unfoldable pub exit_status : Bool → Result TvlaError (TvlaResult F) → ℕ
  unfolding leaking
  exit_status fail_on_leakage (err e) = 2
  exit_status fail_on_leakage (ok r) = if fail_on_leakage && leaking F r then 1 else 0

  -- The rows that a report marks as above the threshold.
  abbrev pub flagged : List SampleRow → List SampleRow
  flagged rows = keep (λ (row : SampleRow). row.exceeds_threshold) rows
