-- ===== src/PowerContract/Defs.antt =====
-- model/power_contract.py: activity samples, traces, their validation and the trapezoid rule.
-- `to_json` writes a file and is left out.
use lca.Prelude.{
  ltb, ◌||◌, not, Bool, false, List, [], ◌∷◌, map, Option, none, some, if◌then◌else◌, ℤ, pos,
  negsuc, ltb_ℤ, leb_ℤ, ◌-ℤ◌, Result, ok, err, ◌>>=◌, ◌>>◌, raise_if, length,
}
use lca.Floats.{Floats}
use lca.Text.{Text, codes, text_eq}
use lca.Vcd.{has_text}

pub data ContractError : Type 0 where
  negative_timestamp negative_lanes clock_not_positive negative_estimated negative_measured :
      ContractError
  unsupported_state : Text → ContractError
  identity_required not_increasing too_few_samples samples_without_watts : ContractError

abbrev pub allowed_states : List Text
allowed_states =
    codes "idle" ∷ codes "kem" ∷ codes "dsa" ∷ codes "dma" ∷ codes "zeroize" ∷ codes "fault" ∷ []

module _ (F : Floats) where
  open F use {Float, of_int, add, mul, div, lt}

  pub record ActivitySample : Type 0 where
    pub timestamp_ns : ℤ
    pub state : Text
    pub active_lanes : ℤ
    pub clock_hz : ℤ
    pub estimated_watts : Option Float
    pub measured_watts : Option Float

  -- `value is not None and value < 0`
  abbrev pub below_zero : Option Float → Bool
  below_zero none = false
  below_zero (some w) = lt w (of_int (pos 0))

  unfoldable pub validate_sample : ActivitySample → Result ContractError (Unit {0})
  unfolding has_text
  validate_sample s = do
    raise_if (ltb_ℤ s.timestamp_ns (pos 0)) negative_timestamp
    raise_if (not (has_text s.state allowed_states)) (unsupported_state s.state)
    raise_if (ltb_ℤ s.active_lanes (pos 0)) negative_lanes
    raise_if (leb_ℤ s.clock_hz (pos 0)) clock_not_positive
    raise_if (below_zero s.estimated_watts) negative_estimated
    raise_if (below_zero s.measured_watts) negative_measured

  pub record PowerTrace : Type 0 where
    pub source : Text
    pub hardware_id : Text
    pub operation : Text
    pub samples : List ActivitySample

  unfoldable pub validate_samples : ℤ → List ActivitySample → Result ContractError (Unit {0})
  validate_samples previous [] = ok tt
  validate_samples previous (s ∷ rest) = do
    validate_sample s
    raise_if (leb_ℤ s.timestamp_ns previous) not_increasing
    validate_samples s.timestamp_ns rest

  unfoldable pub validate : PowerTrace → Result ContractError (Unit {0})
  validate t = do
    raise_if (text_eq t.source [] || text_eq t.hardware_id [] || text_eq t.operation [])
        identity_required
    validate_samples (negsuc 0) t.samples

  -- `getattr(sample, field_name)`
  abbrev pub watts : Bool → ActivitySample → Option Float
  watts measured s = if measured then s.measured_watts else s.estimated_watts

  -- The values of a list that holds no `None`.
  unfoldable pub all_present : List (Option Float) → Option (List Float)
  all_present [] = some []
  all_present (none ∷ values) = none
  all_present (some v ∷ values) = elim (all_present values) [
    | none ↦ none
    | some vs ↦ some (v ∷ vs)
  ]

  -- One step of the trapezoid rule.
  abbrev pub trapezoid : ℤ → ℤ → Float → Float → Float
  trapezoid left right p_left p_right =
      let duration_s = div (of_int (right -ℤ left)) (of_int (pos 1_000_000_000)) in
      div (mul duration_s (add p_left p_right)) (of_int (pos 2))

  unfoldable pub integrate_pairs : Float → List ActivitySample → List Float → Float
  integrate_pairs joules (left ∷ right ∷ samples) (p_left ∷ p_right ∷ values) =
      integrate_pairs (add joules (trapezoid left.timestamp_ns right.timestamp_ns p_left p_right))
        (right ∷ samples) (p_right ∷ values)
  integrate_pairs joules samples values = joules

  unfoldable pub integrate_joules : PowerTrace → Bool → Result ContractError Float
  unfolding all_present
  integrate_joules t measured = do
    validate t
    raise_if (ltb (length t.samples) 2) too_few_samples
    values ← elim (all_present (map (watts measured) t.samples)) [
      | none ↦ err samples_without_watts
      | some vs ↦ ok vs
    ]
    ok (integrate_pairs (of_int (pos 0)) t.samples values)
