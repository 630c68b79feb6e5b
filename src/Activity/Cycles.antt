-- ===== src/Activity/Cycles.antt =====
-- `compute_cycle_activity` samples exactly the rising clock edges: the single pass over the blocks
-- with its mutable state agrees with a description by edges.
use lca.Prelude.{
  ltb, ◌≡◌, ◌∙◌, refl, ap, sym, List, [], ◌∷◌, ◌++◌, Option, none, some, Result, ok, err, ◌>>=◌,
  arith, Bool-cases, Result-cases, Option-cases, inl, inr, length, ℤ, pos, true, false, Bool,
  if◌then◌else◌, ◌&&◌, not, ◌≢◌, raise_if, ◌>>◌,
}
use mathlib.Core.List.{append-nil, append_assoc}
use lca.Text.{Text, text_eq}
use lca.Dict.{Dict, update, get_or}
use lca.Vcd.{VcdError, VcdFile, TimeBlock, Fraction, too_few_edges}
use lca.Floats.{Floats}
use lca.Activity.Defs.{StateRules, classify, time_to_ns, unknown, high}
use lca.Activity.Sampling.{
  TrackedSignal, CycleActivity, Sampler, snapshot, weighted_toggles, state_values_from,
  state_idents, lanes, edge_sample, is_rising, held_before, sample_block, sample_blocks,
  start_sampler, compute_cycle_activity,
}

-- A rising edge, with the values in force before and after its block.
pub record Edge : Type 0 where
  pub time : ℤ
  pub before : Dict Text
  pub after : Dict Text

unfoldable pub edges : Text → Text → Dict Text → List TimeBlock → List Edge
edges clock_ident previous values [] = []
edges clock_ident previous values (block ∷ rest) =
    let values' = update values block.changes in
    let clock = get_or clock_ident unknown values' in
    let later = edges clock_ident clock values' rest in
    if text_eq clock high && not (text_eq previous high)
    then record { time = block.time; before = values; after = values' } ∷ later
    else later

append_bind {ℓ} :
    {E : Type 0} {A : Type ℓ} (xs : List A) (a : A) (r : Result E (List A))
    → (r >>= λ later. ok ((xs ++ a ∷ []) ++ later))
      ≡ ((r >>= λ later. ok (a ∷ later)) >>= λ later. ok (xs ++ later))
append_bind xs a (ok later) = ap ok (append_assoc xs (a ∷ []) later)
append_bind xs a (err e) = refl

-- At least two samples are needed.
abbrev pub at_least_two {ℓ} : {A : Type ℓ} → List A → Result VcdError (List A)
at_least_two samples =
    if ltb (length samples) 2 then err (too_few_edges (length samples)) else ok samples

module _ (F : Floats) (scale : Fraction) (tracked : List (TrackedSignal F)) (clock_ident : Text)
    (rules : StateRules) where
  open F use {of_int}

  abbrev pub sample_of : Option (Dict Text) → Edge → ℤ → CycleActivity F
  sample_of previous e timestamp =
      let state = classify rules (state_values_from F e.before [] (state_idents F rules)) in
      record {
        timestamp_ns = timestamp;
        toggles =
            weighted_toggles F (of_int (pos 0))
              (elim previous [ none ↦ snapshot F e.before tracked | some taken ↦ taken ])
              (snapshot F e.after tracked) tracked;
        state = state;
        active_lanes = lanes F state;
      }

  -- Each edge is compared with the edge before it; the first with the values before its block.
  unfoldable pub samples_of :
      Option (Dict Text) → List Edge → Result VcdError (List (CycleActivity F))
  samples_of previous [] = ok []
  samples_of previous (e ∷ es) = do
    timestamp ← time_to_ns e.time scale
    later ← samples_of (some (snapshot F e.after tracked)) es
    ok (sample_of previous e timestamp ∷ later)

  abbrev edge_at : Sampler F → TimeBlock → Edge
  edge_at s block = record {
    time = block.time;
    before = s.values;
    after = update s.values block.changes;
  }

  abbrev quiet : Sampler F → TimeBlock → Sampler F
  quiet s block = record s {
    values = update s.values block.changes;
    pre_block = held_before F scale tracked clock_ident rules s;
    previous_clock = get_or clock_ident unknown (update s.values block.changes);
  }

  abbrev sampled : Sampler F → TimeBlock → ℤ → Sampler F
  sampled s block timestamp = record (quiet s block) {
    previous_snapshot = some (snapshot F (update s.values block.changes) tracked);
    samples = s.samples ++ sample_of s.previous_snapshot (edge_at s block) timestamp ∷ [];
  }

  abbrev rising : Sampler F → TimeBlock → Bool
  rising s block = is_rising F scale tracked clock_ident rules s block

  abbrev step : Sampler F → TimeBlock → Result VcdError (Sampler F)
  step = sample_block F scale tracked clock_ident rules

  step-quiet :
      (s : Sampler F) (block : TimeBlock)
      → rising s block ≡ false
      → step s block ≡ ok (quiet s block)
  unfolding sample_block
  step-quiet s block h = rw h

  step-sampled :
      (s : Sampler F) (block : TimeBlock) (t : ℤ)
      → rising s block ≡ true
      → time_to_ns block.time scale ≡ ok t
      → step s block ≡ ok (sampled s block t)
  unfolding sample_block edge_sample
  step-sampled s block t h timed = elim (Option-cases s.previous_snapshot) [
    | inl first ↦ rw (h, timed, first)
    | inr (taken, later) ↦ rw (h, timed, later)
  ]

  step_fails :
      (s : Sampler F) (block : TimeBlock) (problem : VcdError)
      → rising s block ≡ true
      → time_to_ns block.time scale ≡ err problem
      → step s block ≡ err problem
  unfolding sample_block edge_sample
  step_fails s block problem h timed = rw (h, timed)

  -- The pass, started anywhere, adds the samples of the edges that are left.
  sample_blocks-samples_of :
      (s : Sampler F) (blocks : List TimeBlock)
      → (sample_blocks F scale tracked clock_ident rules s blocks >>= λ s'. ok s'.samples) ≡ (
          samples_of s.previous_snapshot (edges clock_ident s.previous_clock s.values blocks)
          >>= λ later. ok (s.samples ++ later))
  unfolding sample_blocks samples_of edges
  sample_blocks-samples_of s [] = ap ok (sym (append-nil s.samples))
  sample_blocks-samples_of s (block ∷ rest) = elim (Bool-cases (rising s block)) [
    | inr still ↦
        rw (step-quiet s block still, still) (sample_blocks-samples_of (quiet s block) rest)
    | inl edge ↦ elim (Result-cases (time_to_ns block.time scale)) [
      | inr (problem, failed) ↦ rw (step_fails s block problem edge failed, edge, failed)
      | inl (t, timed) ↦
          rw (step-sampled s block t edge timed, edge, timed)
            (sample_blocks-samples_of (sampled s block t) rest
              ∙ append_bind s.samples (sample_of s.previous_snapshot (edge_at s block) t) _)
    ]
  ]

test_false {ℓ} :
    {A : Type ℓ} (xs : List A)
    → xs ≢ []
    → (elim xs as (λ _. Bool) [ [] ↦ true | x ∷ r ↦ false ]) ≡ false
test_false [] h = absurd (h refl)
test_false (x ∷ r) h = refl

module _ (F : Floats) (vcd : VcdFile) (tracked : List (TrackedSignal F)) (clock_ident : Text)
    (rules : StateRules) where
  finish :
      (r : Result VcdError (Sampler F)) (spec : Result VcdError (List (CycleActivity F)))
      → (r >>= λ s. ok s.samples) ≡ (spec >>= λ later. ok ([] ++ later))
      → (r >>= λ s.
          raise_if (ltb (length s.samples) 2) (too_few_edges (length s.samples)) >> ok s.samples)
        ≡ (spec >>= at_least_two)
  finish (ok s) (ok later) h = ground arith
  finish (ok s) (err e) h = absurd (ground arith)
  finish (err e) (ok later) h = absurd (ground arith)
  finish (err e) (err e') h = ground arith

  -- With a tracked signal, the pass over the blocks returns one sample for each rising edge of the
  -- clock, each comparing the tracked values at its edge with those at the edge before (the first
  -- with those before its block), or the error of the first edge that has no whole nanosecond, or
  -- the error that there are fewer than two edges.
  pub compute_cycle_activity-samples_of :
      tracked ≢ []
      → compute_cycle_activity F vcd tracked clock_ident rules ≡ (
          samples_of F vcd.timescale_seconds tracked clock_ident rules none
            (edges clock_ident unknown [] vcd.time_blocks)
          >>= at_least_two)
  unfolding compute_cycle_activity
  compute_cycle_activity-samples_of some_tracked = rw (test_false tracked some_tracked) (
      finish _ _ (
        sample_blocks-samples_of F vcd.timescale_seconds tracked clock_ident rules (start_sampler F)
          vcd.time_blocks))
