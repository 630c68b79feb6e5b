-- ===== src/Trace/Build.antt =====
-- tools/power_trace_from_vcd.py: `build_trace`. Rounding a quotient of integers is
-- exact here, as the float division is below 2 ** 52. The constant texts of the metadata, the file's
-- digest, the tool versions and the schema check are left out.
use lca.Prelude.{
  ℕ, suc, ◌+◌, ◌*◌, ◌/◌, ◌%◌, ◌==◌, ltb, ◌&&◌, Bool, true, false, if◌then◌else◌, List, [], ◌∷◌, map,
  none, ℤ, pos, negsuc, ◌+ℤ◌, ◌-ℤ◌, ◌==ℤ◌, leb_ℤ, sub_ℕ, Result, ok, err, ◌>>=◌, ◌>>◌, raise_if,
  length,
}
use lca.Text.{Text, codes}
use lca.Dict.{Dict, insert}
use lca.Floats.{Floats}
use lca.Vcd.{VcdError}
use lca.Activity.{TrackedSignal, CycleActivity}
use lca.PowerContract.{ContractError, ActivitySample, PowerTrace, validate}

pub data TraceError : Type 0 where
  vcd_error : VcdError → TraceError
  contract_error : ContractError → TraceError
  no_interval zero_division : TraceError

-- The quotient of naturals rounded to the nearest integer, a half to the even one.
unfoldable pub round_half_even : ℕ → ℕ → ℕ
round_half_even a b =
    let q = a / b in
    let r = a % b in
    if ltb (2 * r) b then q else if ltb b (2 * r) then q + 1 else if q % 2 == 0 then q else q + 1

abbrev pub round_ratio : ℤ → ℕ → ℤ
round_ratio (pos a) b = pos (round_half_even a b)
round_ratio (negsuc a) b = sub_ℕ 0 (round_half_even (suc a) b)

abbrev pub sum_ℤ : List ℤ → ℤ
sum_ℤ [] = pos 0
sum_ℤ (x ∷ xs) = x +ℤ sum_ℤ xs

-- `len(set(intervals)) == 1`, as every interval equal to the first.
abbrev all_equal : ℤ → List ℤ → Bool
all_equal x [] = true
all_equal x (y ∷ ys) = x ==ℤ y && all_equal x ys

abbrev pub uniform_of : List ℤ → Bool
uniform_of [] = false
uniform_of (x ∷ xs) = all_equal x xs

unfoldable pub interval_of : List ℤ → Result TraceError ℤ
unfolding round_half_even
interval_of [] = err zero_division
interval_of (x ∷ xs) =
    if uniform_of (x ∷ xs) then ok x else ok (round_ratio (sum_ℤ (x ∷ xs)) (length (x ∷ xs)))

-- `round(1_000_000_000 / interval_ns)`
abbrev pub clock_of : ℤ → ℤ
clock_of (pos n) = pos (round_half_even 1_000_000_000 n)
clock_of (negsuc n) = sub_ℕ 0 (round_half_even 1_000_000_000 (suc n))

module _ (F : Floats) where
  open F use {Float, of_int, add, div, lt, eq}

  -- The differences of neighbouring time stamps.
  unfoldable pub intervals : List (CycleActivity F) → List ℤ
  intervals [] = []
  intervals (s ∷ []) = []
  intervals (s ∷ t ∷ rest) = (t.timestamp_ns -ℤ s.timestamp_ns) ∷ intervals (t ∷ rest)

  abbrev pub largest : Float → List Float → Float
  largest x [] = x
  largest x (y ∷ ys) = largest (if lt x y then y else x) ys

  abbrev pub sum_floats : Float → List Float → Float
  sum_floats total [] = total
  sum_floats total (x ∷ xs) = sum_floats (add total x) xs

  abbrev pub signal_weights : Dict Float → List (TrackedSignal F) → Dict Float
  signal_weights d [] = d
  signal_weights d (t ∷ ts) =
      signal_weights (if eq t.weight (of_int (pos 1)) then d else insert t.path t.weight d) ts

  -- The metadata that the samples and signals determine.
  pub record Metadata : Type 0 where
    pub per_cycle : List Float
    pub max : Float
    pub mean : Float
    pub total : Float
    pub tracked_signals : List Text
    pub signal_weights_of : Dict Float
    pub excluded_signals : List Text
    pub clock_signal : Text
    pub clock_hz : ℤ
    pub sample_interval_ns : ℤ
    pub sample_interval_uniform : Bool

  abbrev pub toggles_of : List (CycleActivity F) → List Float
  toggles_of samples = map (λ (s : CycleActivity F). s.toggles) samples

  -- `max(toggles)`; the list is not empty where it is called, since there are intervals.
  abbrev pub largest_of : List Float → Float
  largest_of [] = of_int (pos 0)
  largest_of (x ∷ xs) = largest x xs

  abbrev pub sample_with : ℤ → CycleActivity F → ActivitySample F
  sample_with clock_hz s = record {
    timestamp_ns = s.timestamp_ns;
    state = s.state;
    active_lanes = pos s.active_lanes;
    clock_hz = clock_hz;
    estimated_watts = none;
    measured_watts = none;
  }

  abbrev pub trace_of : Text → Text → ℤ → List (CycleActivity F) → PowerTrace F
  trace_of hardware_id operation clock_hz samples = record {
    source = codes "simulator";
    hardware_id = hardware_id;
    operation = operation;
    samples = map (sample_with clock_hz) samples;
  }

  abbrev pub checked : PowerTrace F → Metadata → Result TraceError (PowerTrace F × Metadata)
  checked trace metadata = elim (validate F trace) [
    | ok u ↦ ok (trace, metadata)
    | err e ↦ err (contract_error e)
  ]

  abbrev pub metadata_of :
      List (CycleActivity F) → List (TrackedSignal F) → List Text → Text → ℤ → Metadata
  metadata_of samples tracked skipped clock_path interval =
      let toggles = toggles_of samples in
      let total = sum_floats (of_int (pos 0)) toggles in
      record {
        per_cycle = toggles;
        max = largest_of toggles;
        mean = div total (of_int (pos (length toggles)));
        total = total;
        tracked_signals = map (λ (t : TrackedSignal F). t.path) tracked;
        signal_weights_of = signal_weights [] tracked;
        excluded_signals = skipped;
        clock_signal = clock_path;
        clock_hz = clock_of interval;
        sample_interval_ns = interval;
        sample_interval_uniform = uniform_of (intervals samples);
      }

  unfoldable pub build_trace :
      List (CycleActivity F)
      → List (TrackedSignal F)
      → List Text
      → Text
      → Text
      → Text
      → Result TraceError (PowerTrace F × Metadata)
  build_trace samples tracked skipped clock_path hardware_id operation = do
    interval ← interval_of (intervals samples)
    raise_if (leb_ℤ interval (pos 0)) no_interval
    checked (trace_of hardware_id operation (clock_of interval) samples)
        (metadata_of samples tracked skipped clock_path interval)
