-- ===== src/Tvla/Summary.antt =====
-- The numbers of a report against its table of sample points.
use lca.Prelude.{◌<◌, ◌≡◌, ◌↔◌, Bool, true, ok, length}
use lca.Floats.{Floats}
use lca.Text.{Text}
use lca.Tvla.Statistics.{TvlaResult, keep}
use lca.Tvla.Report.{SampleRow, Report, flagged, exit_status}

module _ (F : Floats) where
  -- The counts of a report are those of its table, it says that the design leaks when a point is
  -- above the threshold, and so does the exit status where it is asked for.
  pub record IsConsistent (fail_on_leakage : Bool) (r : TvlaResult F) (report : Report F)
      : Type 0 where
    pub rows : length report.per_sample ≡ report.sample_points
    pub above : length (flagged F report.per_sample) ≡ report.points_exceeding_threshold
    pub diverging :
        length (keep (λ (row : SampleRow F). row.degenerate) report.per_sample)
        ≡ length report.degenerate
    pub leaks : (report.is_leaking ≡ true) ↔ (0 < report.points_exceeding_threshold)
    pub status :
        (exit_status F fail_on_leakage (ok r) ≡ 1)
        ↔ ((fail_on_leakage ≡ true) × (0 < report.points_exceeding_threshold))
