-- ===== src/Trace/Valid.antt =====
-- `build_trace` on the samples of a parsed dump gives a valid trace.
use lca.Prelude.{
  ◌≡◌, ◌≢◌, ◌∙◌, refl, sym, subst, Bool, true, false, if◌then◌else◌, List, [], ◌∷◌, map, Option,
  none, some, Result, ok, err, ◌>>=◌, arith, Result-cases, Option-cases, inl, inr, All, ℤ, pos,
  negsuc, leb_ℤ, ◌<ℤ◌, ◌≤ℤ◌,
}
use lca.Text.{Text, codes}
use lca.Dict.{Dict}
use lca.Floats.{Floats}
use lca.Vcd.{VcdError, VcdFile, has_text, IsWellFormed}
use lca.Activity.{
  sample_of, snapshot, Edge, edges, samples_of, TrackedSignal, CycleActivity, StateRules,
  time_to_ns, unknown, classify, active_state, state_kem, state_dsa, compute_cycle_activity,
  compute_cycle_activity-samples_of, at_least_two,
}
use lca.PowerContract.{allowed_states, PowerTrace, AreSamples, IsTrace, validate_iff, validate}
use lca.Trace.Build.{
  Metadata, intervals, interval_of, clock_of, sample_with, metadata_of, trace_of, checked,
  build_trace,
}
use lca.Trace.Rounding.{interval_of-positive, clock_of-positive, intervals-AllPositive}
use lca.Trace.Pipeline.{Ascends, stamps, compute_cycle_activity-Ascends}

-- The state of every sample is one that the contract allows.
abbrev pub IsAllowed : Text → Type 0
IsAllowed state = has_text state allowed_states ≡ true

IsAllowed-if : (b : Bool) (s t : Text) → IsAllowed s → IsAllowed t → IsAllowed (if b then s else t)
IsAllowed-if true s t h k = h
IsAllowed-if false s t h k = k

active_state-IsAllowed :
    (rules : StateRules) (values : Dict Text)
    → IsAllowed rules.default_active_state
    → IsAllowed (active_state rules values)
unfolding active_state
active_state-IsAllowed rules values h = elim (Option-cases rules.modulus_ident) [
  | inl absent ↦ rw absent h
  | inr (ident, e) ↦ rw e (IsAllowed-if _ _ _ (IsAllowed-if _ _ _ kem (IsAllowed-if _ _ _ dsa h)) h)
]
  where
    kem : IsAllowed state_kem
    kem = unfold has_text in refl

    dsa : IsAllowed state_dsa
    dsa = unfold has_text in refl

classify-IsAllowed :
    (rules : StateRules) (values : Dict Text)
    → IsAllowed rules.default_active_state
    → IsAllowed (classify rules values)
unfolding classify
classify-IsAllowed rules values h =
    IsAllowed-if _ _ _ zeroize
      (IsAllowed-if _ _ _ fault (IsAllowed-if _ _ _ (active_state-IsAllowed rules values h) idle))
  where
    zeroize : IsAllowed (codes "zeroize")
    zeroize = unfold has_text in refl

    fault : IsAllowed (codes "fault")
    fault = unfold has_text in refl

    idle : IsAllowed (codes "idle")
    idle = unfold has_text in refl

module _ (F : Floats) (vcd : VcdFile) (tracked : List (TrackedSignal F)) (clock : Text)
    (rules : StateRules) where
  abbrev AllAllowed : List (CycleActivity F) → Type 0
  AllAllowed samples = All (λ (s : CycleActivity F). IsAllowed s.state) samples

  samples_of-IsAllowed :
      (previous : Option (Dict Text)) (es : List Edge) (samples : List (CycleActivity F))
      → IsAllowed rules.default_active_state
      → samples_of F vcd.timescale_seconds tracked clock rules previous es ≡ ok samples
      → AllAllowed samples
  unfolding samples_of
  samples_of-IsAllowed previous [] samples d h = subst AllAllowed (nothing h) tt
    where
      nothing :
          samples_of F vcd.timescale_seconds tracked clock rules previous [] ≡ ok samples
          → [] ≡ samples
      nothing e = ground arith
  samples_of-IsAllowed previous (e ∷ es) samples d h =
      elim (Result-cases (time_to_ns e.time vcd.timescale_seconds)) [
        | inr (problem, failed) ↦ absurd (ground arith)
        | inl (t, timed) ↦
            elim (Result-cases (
              samples_of F vcd.timescale_seconds tracked clock rules
                (some (snapshot F e.after tracked)) es)) [
                  | inr (problem, failed) ↦ absurd (ground arith)
                  | inl (later, fine) ↦ subst AllAllowed (made t later timed fine) (
                    classify-IsAllowed rules _ d,
                    samples_of-IsAllowed (some (snapshot F e.after tracked)) es later d fine,
                  )
                ]
      ]
    where
      made :
          (t : ℤ) (later : List (CycleActivity F))
          → time_to_ns e.time vcd.timescale_seconds ≡ ok t
          → samples_of F vcd.timescale_seconds tracked clock rules
              (some (snapshot F e.after tracked))
              es
            ≡ ok later
          → sample_of F vcd.timescale_seconds tracked clock rules previous e t ∷ later ≡ samples
      made t later timed fine = ground arith

module _ (F : Floats) where
  samples-AreSamples :
      (clock_hz previous : ℤ) (samples : List (CycleActivity F))
      → pos 0 <ℤ clock_hz
      → negsuc 0 ≤ℤ previous
      → Ascends previous (stamps F samples)
      → All (λ (s : CycleActivity F). IsAllowed s.state) samples
      → AreSamples F previous (map (sample_with F clock_hz) samples)
  samples-AreSamples clock_hz previous [] positive low a allowed = tt
  samples-AreSamples clock_hz previous (s ∷ samples) positive low a allowed = (
    record {
      timestamp = omega (arith, low, a.0);
      known_state = allowed.0;
      lanes = omega arith;
      clock = positive;
      estimated = refl;
      measured = refl;
    },
    a.0,
    samples-AreSamples clock_hz s.timestamp_ns samples positive (omega (arith, low, a.0)) a.1
        allowed.1,
  )

checked-ok :
    (F : Floats) (trace : PowerTrace F) (m : Metadata F)
    → validate F trace ≡ ok tt
    → checked F trace m ≡ ok (trace, m)
checked-ok F trace m valid = ground arith

-- What `build_trace` returns where its checks pass.
build_trace-ok :
    (F : Floats) (samples : List (CycleActivity F)) (tracked : List (TrackedSignal F))
    (skipped : List Text) (clock_path hardware_id operation : Text) (interval : ℤ)
    → interval_of (intervals F samples) ≡ ok interval
    → pos 0 <ℤ interval
    → validate F (trace_of F hardware_id operation (clock_of interval) samples) ≡ ok tt
    → (m : Metadata F) × (build_trace F samples tracked skipped clock_path hardware_id operation
        ≡ ok (trace_of F hardware_id operation (clock_of interval) samples, m))
unfolding build_trace
build_trace-ok F samples tracked skipped clock_path hardware_id operation interval spaced positive
      valid =
    (
      metadata_of F samples tracked skipped clock_path interval,
      rw (spaced, not_le positive)
          (checked-ok F (trace_of F hardware_id operation (clock_of interval) samples)
            (metadata_of F samples tracked skipped clock_path interval) valid),
    )
  where
    not_le : pos 0 <ℤ interval → leb_ℤ interval (pos 0) ≡ false
    not_le h = ground arith

module _ (F : Floats) (vcd : VcdFile) (tracked : List (TrackedSignal F)) (clock : Text)
    (rules : StateRules) where
  at_least_two-ok :
      (r : Result VcdError (List (CycleActivity F))) (samples : List (CycleActivity F))
      → (r >>= at_least_two) ≡ ok samples
      → r ≡ ok samples
  at_least_two-ok (ok later) samples h = ground arith
  at_least_two-ok (err e) samples h = absurd (ground arith)

  -- On the samples that a well-formed file gives, with an allowed state for unknown moduli, a
  -- hardware name, an operation name and a sampling interval below two seconds, `build_trace`
  -- succeeds, and the trace that it returns has these samples and is valid.
  pub build_trace-IsTrace :
      (samples : List (CycleActivity F)) (skipped : List Text)
      (clock_path hardware_id operation : Text) (interval : ℤ)
      → IsWellFormed vcd
      → tracked ≢ []
      → IsAllowed rules.default_active_state
      → compute_cycle_activity F vcd tracked clock rules ≡ ok samples
      → hardware_id ≢ []
      → operation ≢ []
      → interval_of (intervals F samples) ≡ ok interval
      → interval <ℤ pos 2_000_000_000
      → ((m : Metadata F) × (build_trace F samples tracked skipped clock_path hardware_id operation
            ≡ ok (trace_of F hardware_id operation (clock_of interval) samples, m)))
        × IsTrace F (trace_of F hardware_id operation (clock_of interval) samples)
  build_trace-IsTrace samples skipped clock_path hardware_id operation interval formed some_tracked
        allowed computed named titled spaced short =
      (
        build_trace-ok F samples tracked skipped clock_path hardware_id operation interval spaced
            positive ((validate_iff F trace).1 valid),
        valid,
      )
    where
      trace : PowerTrace F
      trace = trace_of F hardware_id operation (clock_of interval) samples

      sampled :
          samples_of F vcd.timescale_seconds tracked clock rules none
            (edges clock unknown [] vcd.time_blocks)
          ≡ ok samples
      sampled = at_least_two-ok _ samples (
          sym (compute_cycle_activity-samples_of F vcd tracked clock rules some_tracked) ∙ computed)

      rising : Ascends (negsuc 0) (stamps F samples)
      rising = compute_cycle_activity-Ascends F vcd tracked clock rules samples formed sampled

      positive : pos 0 <ℤ interval
      positive =
          interval_of-positive (intervals F samples) interval
            (intervals-AllPositive F (negsuc 0) samples rising) spaced

      valid : IsTrace F trace
      valid = record {
        source = λ e. cc;
        hardware_id = named;
        operation = titled;
        samples =
            samples-AreSamples F (clock_of interval) (negsuc 0) samples
              (clock_of-positive interval positive short) (omega arith) rising
              (samples_of-IsAllowed F vcd tracked clock rules none
                (edges clock unknown [] vcd.time_blocks) samples allowed sampled);
      }
