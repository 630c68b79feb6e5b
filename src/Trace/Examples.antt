-- ===== src/Trace/Examples.antt =====
-- Tests of the trace assembly, and the theorems at a small dump.
use lca.Prelude.{
  ◌≡◌, ◌≢◌, ◌↔◌, ◌⊎◌, refl, List, [], ◌∷◌, none, some, ok, ℤ, pos, true, false, ◌*ℤ◌, ◌+ℤ◌, ◌-ℤ◌,
  arith,
}
use lca.Floats.Integers.{integers}
use lca.Text.{Text, codes, text_eq}
use lca.Dict.{insert, lookup, get_or, update}
use lca.Vcd.{VcdFile, VcdVar, TimeBlock, IsWellFormed, togglable, has_text}
use lca.Activity.{
  TrackedSignal, CycleActivity, StateRules, compute_cycle_activity, sample_blocks, sample_block,
  edge_sample, time_to_ns, snapshot, snapshot_from, weighted_toggles, hamming_distance,
  count_differences, state_values_from, classify, reset_asserted, is_high, state_idle,
}
use lca.PowerContract.{IsTrace}
use lca.Trace.Signals.{
  Options, select_signals, resolve_signal, idents_where, has_path, has_name, sort_vars, insert_var,
  text_lt, consider_all, consider, in_scope,
}
use lca.Trace.Build.{
  Metadata, intervals, interval_of, round_half_even, clock_of, trace_of, build_trace,
}
use lca.Trace.Selection.{IsSelection, select_signals-IsSelection}
use lca.Trace.Resolve.{Names, Absent, resolve_signal-some_iff}
use lca.Trace.Valid.{build_trace-IsTrace}

abbrev wire : Text → Text → Text → ℤ → VcdVar
wire ident path name width = record {
  ident = ident;
  path = path;
  name = name;
  width = width;
  var_type = codes "wire";
}

abbrev block_at : ℤ → Text → Text → TimeBlock
block_at t clock bus = record { time = t; changes = (codes "!", clock) ∷ (codes "d", bus) ∷ [] }

-- The bus is declared in two scopes.
abbrev dump : VcdFile
dump = record {
  date = [];
  version = [];
  timescale_text = codes "1 ns";
  timescale_seconds = record { numerator = 1; denominator = 1_000_000_000 };
  variables =
      wire (codes "!") (codes "t.clk") (codes "clk") (pos 1)
      ∷ wire (codes "d") (codes "t.u.d") (codes "d") (pos 4)
      ∷ wire (codes "d") (codes "t.d") (codes "d") (pos 4)
      ∷ [];
  time_blocks =
      block_at (pos 0) (codes "0") (codes "0000")
      ∷ block_at (pos 5) (codes "1") (codes "0011")
      ∷ block_at (pos 10) (codes "0") (codes "0111")
      ∷ block_at (pos 15) (codes "1") (codes "1111")
      ∷ [];
}

dump-IsWellFormed : IsWellFormed dump
dump-IsWellFormed = record {
  declared = λ e. cc;
  rising = (omega arith, (omega arith, (omega arith, tt)));
  first = refl;
  scale = record { numerator = omega arith; denominator = omega arith };
}

-- A pattern that matches its own text.
abbrev options : Options integers text_eq
options = record {
  scopes = [];
  excludes = [];
  weights = [];
  exclude_idents = codes "!" ∷ [];
  count_aliases = false;
}

abbrev data_bus : List (TrackedSignal integers)
data_bus = record { ident = codes "d"; path = codes "t.d"; width = pos 4; weight = pos 1 } ∷ []

-- The bus is tracked once, by its least path.
select_dump : select_signals integers text_eq dump options ≡ (data_bus, codes "t.clk" ∷ [])
unfolding select_signals sort_vars insert_var text_lt consider_all consider in_scope has_text
    togglable
select_dump = refl

select_signals-IsSelection_example :
    IsSelection integers text_eq options dump.variables
      (select_signals integers text_eq dump options).0
select_signals-IsSelection_example = select_signals-IsSelection integers text_eq options dump

resolve_signal-some_iff_example : (resolve_signal dump (codes "d") ≡ ok (some (codes "d"))) ↔ (
    (codes "d" ≢ [])
    × (Names (has_path (codes "d")) (codes "d") dump.variables
        ⊎ (Absent (has_path (codes "d")) dump.variables
            × Names (has_name (codes "d")) (codes "d") dump.variables)))
resolve_signal-some_iff_example = resolve_signal-some_iff dump (codes "d") (codes "d")

resolve_dump : resolve_signal dump (codes "d") ≡ ok (some (codes "d"))
unfolding resolve_signal idents_where has_text
resolve_dump = refl

abbrev rules : StateRules
rules = record {
  reset_ident = none;
  reset_active_low = true;
  busy_ident = none;
  modulus_ident = none;
  fault_ident = none;
  kem_modulus = pos 3329;
  dsa_modulus = pos 8_380_417;
  default_active_state = codes "kem";
}

abbrev sampled_at : ℤ → ℤ → CycleActivity integers
sampled_at t toggles = record {
  timestamp_ns = t;
  toggles = toggles;
  state = state_idle;
  active_lanes = 0;
}

abbrev two_samples : List (CycleActivity integers)
two_samples = sampled_at (pos 5) (pos 2) ∷ sampled_at (pos 15) (pos 2) ∷ []

compute_two : compute_cycle_activity integers dump data_bus (codes "!") rules ≡ ok two_samples
unfolding compute_cycle_activity sample_blocks sample_block edge_sample time_to_ns snapshot
    snapshot_from weighted_toggles hamming_distance count_differences state_values_from classify
    reset_asserted is_high insert lookup get_or update ◌*ℤ◌ ◌+ℤ◌
compute_two = refl

-- Ten nanoseconds apart: 100 MHz.
interval_two : interval_of (intervals integers two_samples) ≡ ok (pos 10)
unfolding interval_of intervals ◌-ℤ◌
interval_two = refl

clock_two : clock_of (pos 10) ≡ pos 100_000_000
unfolding round_half_even
clock_two = refl

build_trace-IsTrace_example :
    ((m : Metadata integers) × (build_trace integers two_samples data_bus []
          (codes "t.clk")
          (codes "rtl")
          (codes "ntt")
        ≡ ok (trace_of integers (codes "rtl") (codes "ntt") (clock_of (pos 10)) two_samples, m)))
    × IsTrace integers
        (trace_of integers (codes "rtl") (codes "ntt") (clock_of (pos 10)) two_samples)
build_trace-IsTrace_example =
    build_trace-IsTrace integers dump data_bus (codes "!") rules two_samples [] (codes "t.clk")
      (codes "rtl") (codes "ntt") (pos 10) dump-IsWellFormed (λ e. cc) (unfold has_text in refl)
      compute_two (λ e. cc) (λ e. cc) interval_two (omega arith)
