-- ===== src/Activity/Sampling.antt =====
-- tools/power_trace_from_vcd.py: one sample for each rising clock edge.
use lca.Prelude.{
  ℕ, ◌==◌, ltb, ◌&&◌, ◌||◌, not, Bool, true, false, List, [], ◌∷◌, ◌++◌, Option, none, some,
  if◌then◌else◌, ℤ, pos, pos_part, Result, ok, ◌>>=◌, ◌>>◌, raise_if, length, replicate,
}
use lca.Floats.{Floats}
use lca.Text.{Text, text_eq}
use lca.Dict.{Dict, insert, update, get_or}
use lca.Vcd.{VcdError, VcdFile, TimeBlock, Fraction, no_tracked_signals, too_few_edges}
use lca.Activity.Defs.{
  StateRules, classify, hamming_distance, high, state_dsa, state_kem, time_to_ns, unknown,
}

module _ (F : Floats) where
  open F use {Float, of_int, add, mul}

  pub record TrackedSignal : Type 0 where
    pub ident : Text
    pub path : Text
    pub width : ℤ
    pub weight : Float

  pub record CycleActivity : Type 0 where
    pub timestamp_ns : ℤ
    pub toggles : Float
    pub state : Text
    pub active_lanes : ℕ

  abbrev pub undriven : TrackedSignal → Text
  undriven signal = replicate (pos_part signal.width) b'x'

  -- The value of each tracked signal, `x` in every position where it has none.
  unfoldable pub snapshot_from : Dict Text → Dict Text → List TrackedSignal → Dict Text
  snapshot_from values taken [] = taken
  snapshot_from values taken (signal ∷ signals) =
      snapshot_from values
        (insert signal.ident (get_or signal.ident (undriven signal) values) taken) signals

  unfoldable pub snapshot : Dict Text → List TrackedSignal → Dict Text
  unfolding snapshot_from
  snapshot values tracked = snapshot_from values [] tracked

  -- `if distance: toggles += signal.weight * distance`
  abbrev pub add_toggles : Float → Float → ℕ → Float
  add_toggles toggles weight distance =
      if distance == 0 then toggles else add toggles (mul weight (of_int (pos distance)))

  unfoldable pub weighted_toggles : Float → Dict Text → Dict Text → List TrackedSignal → Float
  unfolding hamming_distance
  weighted_toggles toggles reference taken [] = toggles
  weighted_toggles toggles reference taken (signal ∷ signals) =
      weighted_toggles
        (add_toggles toggles signal.weight
          (hamming_distance (get_or signal.ident [] reference) (get_or signal.ident [] taken)))
        reference taken signals

  abbrev option_list : Option Text → List Text
  option_list none = []
  option_list (some ident) = ident ∷ []

  abbrev pub state_idents : StateRules → List Text
  state_idents rules =
      option_list rules.reset_ident
      ++ option_list rules.busy_ident
      ++ option_list rules.modulus_ident
      ++ option_list rules.fault_ident

  -- `{ident: values.get(ident, "x") for ident in state_idents}`
  unfoldable pub state_values_from : Dict Text → Dict Text → List Text → Dict Text
  state_values_from values held [] = held
  state_values_from values held (ident ∷ idents) =
      state_values_from values (insert ident (get_or ident unknown values) held) idents

  -- What the loop over the time blocks keeps.
  pub record Sampler : Type 0 where
    pub values : Dict Text
    pub pre_block : Dict Text
    pub previous_clock : Text
    pub previous_snapshot : Option (Dict Text)
    pub samples : List CycleActivity

  abbrev pub start_sampler : Sampler
  start_sampler = record {
    values = [];
    pre_block = [];
    previous_clock = unknown;
    previous_snapshot = none;
    samples = [];
  }

  abbrev pub lanes : Text → ℕ
  lanes state = if text_eq state state_kem || text_eq state state_dsa then 1 else 0

  module _ (scale : Fraction) (tracked : List TrackedSignal) (clock_ident : Text)
      (rules : StateRules) where
    -- The values in force before the first rising edge are those before its block.
    abbrev pub held_before : Sampler → Dict Text
    held_before s = elim s.previous_snapshot [
      | none ↦ snapshot s.values tracked
      | some taken ↦ s.pre_block
    ]

    abbrev pub reference_of : Sampler → Dict Text
    reference_of s = elim s.previous_snapshot [ none ↦ held_before s | some taken ↦ taken ]

    -- The sample at a rising edge.
    unfoldable pub edge_sample : Sampler → TimeBlock → Dict Text → Result VcdError CycleActivity
    edge_sample s block values = do
      let taken = snapshot values tracked
      let state = classify rules (state_values_from s.values [] (state_idents rules))
      timestamp ← time_to_ns block.time scale
      ok (record {
        timestamp_ns = timestamp;
        toggles = weighted_toggles (of_int (pos 0)) (reference_of s) taken tracked;
        state = state;
        active_lanes = lanes state;
      })

    abbrev pub is_rising : Sampler → TimeBlock → Bool
    is_rising s block =
        text_eq (get_or clock_ident unknown (update s.values block.changes)) high
        && not (text_eq s.previous_clock high)

    unfoldable pub sample_block : Sampler → TimeBlock → Result VcdError Sampler
    sample_block s block =
        let values' = update s.values block.changes in
        let clock = get_or clock_ident unknown values' in
        let s' = record s { values = values'; pre_block = held_before s; previous_clock = clock } in
        if is_rising s block
        then (do
          sample ← edge_sample s block values'
          ok (record s' {
            previous_snapshot = some (snapshot values' tracked);
            samples = s.samples ++ sample ∷ [];
          }))
        else ok s'

    unfoldable pub sample_blocks : Sampler → List TimeBlock → Result VcdError Sampler
    sample_blocks s [] = ok s
    sample_blocks s (block ∷ rest) = sample_block s block >>= λ s'. sample_blocks s' rest

  unfoldable pub compute_cycle_activity :
      VcdFile → List TrackedSignal → Text → StateRules → Result VcdError (List CycleActivity)
  compute_cycle_activity vcd tracked clock_ident rules = do
    raise_if (elim tracked [ [] ↦ true | t ∷ ts ↦ false ]) no_tracked_signals
    s ← sample_blocks vcd.timescale_seconds tracked clock_ident rules start_sampler vcd.time_blocks
    raise_if (ltb (length s.samples) 2) (too_few_edges (length s.samples))
    ok s.samples
