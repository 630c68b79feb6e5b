-- ===== src/Activity/Examples.antt =====
-- Tests of the activity computation, and the theorems at a small dump.
use lca.Prelude.{◌+◌, ◌≤◌, ◌≡◌, ◌↔◌, refl, List, [], ◌∷◌, none, ok, ◌>>=◌, ℤ, pos, true, ◌*ℤ◌, ◌+ℤ◌}
use lca.Floats.Integers.{integers}
use lca.Text.{Text, codes}
use lca.Dict.{insert, lookup, get_or, update}
use lca.Vcd.{VcdFile, TimeBlock}
use lca.Activity.Defs.{
  StateRules, time_to_ns, hamming_distance, count_differences, classify, reset_asserted, is_high,
  unknown, state_idle,
}
use lca.Activity.Sampling.{
  TrackedSignal, CycleActivity, compute_cycle_activity, sample_blocks, sample_block, edge_sample,
  snapshot, snapshot_from, weighted_toggles, state_values_from,
}
use lca.Activity.Hamming.{hamming_distance_metric}
use lca.Activity.Cycles.{edges, samples_of, at_least_two, compute_cycle_activity-samples_of}

abbrev block_at : ℤ → Text → Text → TimeBlock
block_at t clock bus = record { time = t; changes = (codes "!", clock) ∷ (codes "d", bus) ∷ [] }

abbrev dump : VcdFile
dump = record {
  date = [];
  version = [];
  timescale_text = codes "1 ns";
  timescale_seconds = record { numerator = 1; denominator = 1_000_000_000 };
  variables = [];
  time_blocks =
      block_at (pos 0) (codes "0") (codes "0000")
      ∷ block_at (pos 5) (codes "1") (codes "0011")
      ∷ block_at (pos 10) (codes "0") (codes "0111")
      ∷ block_at (pos 15) (codes "1") (codes "1111")
      ∷ [];
}

abbrev rules : StateRules
rules = record {
  reset_ident = none;
  reset_active_low = true;
  busy_ident = none;
  modulus_ident = none;
  fault_ident = none;
  kem_modulus = pos 3329;
  dsa_modulus = pos 8_380_417;
  default_active_state = codes "kem";
}

abbrev data_bus : List (TrackedSignal integers)
data_bus = record { ident = codes "d"; path = codes "top.d"; width = pos 4; weight = pos 1 } ∷ []

abbrev sampled_at : ℤ → ℤ → CycleActivity integers
sampled_at t toggles = record {
  timestamp_ns = t;
  toggles = toggles;
  state = state_idle;
  active_lanes = 0;
}

-- Two bits change before the first edge, and two more before the second.
compute_dump :
    compute_cycle_activity integers dump data_bus (codes "!") rules
    ≡ ok (sampled_at (pos 5) (pos 2) ∷ sampled_at (pos 15) (pos 2) ∷ [])
unfolding compute_cycle_activity sample_blocks sample_block edge_sample time_to_ns snapshot
    snapshot_from weighted_toggles hamming_distance count_differences state_values_from classify
    reset_asserted is_high insert lookup get_or update ◌*ℤ◌ ◌+ℤ◌
compute_dump = refl

compute_cycle_activity-samples_of_example :
    compute_cycle_activity integers dump data_bus (codes "!") rules ≡ (
      samples_of integers dump.timescale_seconds data_bus
        (codes "!")
        rules
        none
        (edges (codes "!") unknown [] dump.time_blocks)
      >>= at_least_two)
compute_cycle_activity-samples_of_example =
    compute_cycle_activity-samples_of integers dump data_bus (codes "!") rules (λ e. cc)

abbrev unsettled : Text
unsettled = codes "0x1"

hamming_distance_metric_example :
    ((hamming_distance unsettled (codes "011") ≡ 0) ↔ (unsettled ≡ codes "011"))
    × (hamming_distance unsettled (codes "011") ≡ hamming_distance (codes "011") unsettled)
    × (hamming_distance unsettled (codes "011") ≤ 3)
    × (hamming_distance unsettled (codes "111")
        ≤ hamming_distance unsettled (codes "011") + hamming_distance (codes "011") (codes "111"))
hamming_distance_metric_example =
    hamming_distance_metric unsettled (codes "011") (codes "111") refl refl
