-- ===== src/Tvla/Examples.antt =====
-- Tests of the leakage assessment, and its theorems at two small trace sets.
use lca.Prelude.{
  ℤ, pos, ◌≡◌, ◌↔◌, refl, List, [], ◌∷◌, map, Option, none, ok, err, true, false, ◌>>=◌, ◌+ℤ◌, ◌-ℤ◌,
  ◌*ℤ◌,
}
use lca.Floats.Integers.{integers}
use lca.Text.{Text, codes, split_on}
use lca.Json.{Json, int, array, object, field, end, items_of}
use lca.Tvla.{
  TvlaResult, Options, update, variance, load_series, dig, assess, no_pointer, compare_series,
  update_stats, update_each, points_from, welch_t, common_length, abs_t, leaking, exceeding,
  IsAssessable, assess-ok_iff, exit_status,
}

abbrev no_floats : Text → Option ℤ
no_floats s = none

abbrev trace : List ℤ → Json ℤ
trace samples = object (
    field (codes "metadata")
      (object (field (codes "per_cycle") (array (items_of (map int samples))) end)) end)

abbrev fixed_traces : List (Json ℤ)
fixed_traces = trace (pos 4 ∷ pos 1 ∷ []) ∷ trace (pos 4 ∷ pos 3 ∷ []) ∷ []

abbrev random_traces : List (Json ℤ)
random_traces = trace (pos 9 ∷ pos 2 ∷ []) ∷ trace (pos 9 ∷ pos 6 ∷ []) ∷ []

abbrev fixed_series : List (List ℤ)
fixed_series = (pos 4 ∷ pos 1 ∷ []) ∷ (pos 4 ∷ pos 3 ∷ []) ∷ []

abbrev random_series : List (List ℤ)
random_series = (pos 9 ∷ pos 2 ∷ []) ∷ (pos 9 ∷ pos 6 ∷ []) ∷ []

abbrev pointer : Text
pointer = codes "metadata.per_cycle"

abbrev options : Options integers
options = record {
  threshold = pos 4;
  truncate = false;
  fixed_name = codes "fixed";
  random_name = codes "random";
}

load-trace :
    load_series integers no_floats pointer (trace (pos 4 ∷ pos 1 ∷ [])) ≡ ok (pos 4 ∷ pos 1 ∷ [])
unfolding load_series dig split_on
load-trace = refl

load-missing : load_series integers no_floats (codes "metadata.x") (trace []) ≡ err no_pointer
unfolding load_series dig split_on
load-missing = refl

-- The first point is the same in each set and differs between them.
assess-diverges :
    (assess integers no_floats options pointer fixed_traces random_traces >>= λ r.
    ok (exit_status integers true (ok r)))
    ≡ ok 1
unfolding assess load_series dig split_on compare_series common_length update_stats update_each
    update variance points_from welch_t exit_status leaking exceeding abs_t ◌+ℤ◌ ◌-ℤ◌ ◌*ℤ◌
assess-diverges = refl

assess-ok_iff_example :
    ((r : TvlaResult integers) × (assess integers no_floats options pointer fixed_traces
          random_traces
        ≡ ok r))
    ↔ IsAssessable integers no_floats options pointer fixed_traces random_traces
assess-ok_iff_example = assess-ok_iff integers no_floats options pointer fixed_traces random_traces

abbrev diverging : TvlaResult integers
diverging = record {
  threshold = pos 4;
  n_fixed = 2;
  n_random = 2;
  points =
      record {
        index = 0;
        t = none;
        mean_fixed = pos 4;
        mean_random = pos 9;
        var_fixed = pos 0;
        var_random = pos 0;
        degenerate = true;
      }
      ∷ [];
  fixed_name = codes "fixed";
  random_name = codes "random";
}
