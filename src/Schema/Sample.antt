-- ===== src/Schema/Sample.antt =====
-- One sample of a trace under the schema, and under model/power_contract.py.
use lca.Prelude.{
  ◌≡◌, refl, ok, ◌>>◌, raise_if, not, ◌++◌, Bool-cases, ℤ, inl, inr, Option, none, some, ltb_ℤ, pos,
  arith, [], ◌∷◌,
}
use lca.Floats.{Floats}
use lca.Text.{Text, codes}
use lca.Json.{int, string, object, fields_of, json_eq}
use lca.Vcd.{has_text}
use lca.PowerContract.{ActivitySample, IsSample, below_zero, allowed_states}
use lca.Schema.Defs.{
  Place, Checked, key, validate_against_schema, keywords_for, any_type, is_type, is_among,
  below_minimum, not_in_enum,
}
use lca.Schema.Document.{sample_payload, sample_schema, state_schema, watts_schema, watts_json}

module _ (F : Floats) where
  open F use {Float}

  pub sample_checks : Place → ActivitySample F → Checked F
  sample_checks path s = do
    raise_if (ltb_ℤ s.timestamp_ns (pos 0))
        (below_minimum (path ++ key (codes "timestamp_ns") ∷ []))
    raise_if (not (has_text s.state allowed_states))
        (not_in_enum (path ++ key (codes "state") ∷ []))
    raise_if (ltb_ℤ s.active_lanes (pos 0))
        (below_minimum (path ++ key (codes "active_lanes") ∷ []))
    raise_if (ltb_ℤ s.clock_hz (pos 1)) (below_minimum (path ++ key (codes "clock_hz") ∷ []))
    raise_if (below_zero F s.estimated_watts)
        (below_minimum (path ++ key (codes "estimated_watts") ∷ []))
    raise_if (below_zero F s.measured_watts)
        (below_minimum (path ++ key (codes "measured_watts") ∷ []))
    ok tt

  validate-integer :
      (n : ℤ) (path : Place)
      → validate_against_schema F
          (int n)
          (object (
            fields_of
              ((codes "type", string (codes "integer")) ∷ (codes "minimum", int (pos 0)) ∷ [])))
          path
        ≡ raise_if (ltb_ℤ n (pos 0)) (below_minimum path)
  unfolding validate_against_schema keywords_for any_type is_type
  validate-integer n path = refl

  validate-state :
      (t : Text) (path : Place)
      → validate_against_schema F (string t) (state_schema F) path
        ≡ raise_if (not (has_text t allowed_states)) (not_in_enum path)
  unfolding validate_against_schema keywords_for any_type is_type is_among json_eq has_text
  validate-state t path = elim (Bool-cases (has_text t allowed_states)) [
    | inl e ↦ ground arith
    | inr e ↦ ground arith
  ]

  validate-watts :
      (w : Option Float) (path : Place)
      → validate_against_schema F (watts_json F w) (watts_schema F) path
        ≡ raise_if (below_zero F w) (below_minimum path)
  unfolding validate_against_schema keywords_for any_type is_type is_among json_eq has_text
  validate-watts none path = refl
  validate-watts (some w) path = refl

  pub validate-sample :
      (s : ActivitySample F) (path : Place)
      → validate_against_schema F (sample_payload F s) (sample_schema F) path ≡ sample_checks path s
  unfolding validate_against_schema keywords_for any_type is_type is_among sample_checks
  validate-sample s path =
      rw
        (
          validate-state s.state (path ++ key (codes "state") ∷ []),
          validate-watts s.estimated_watts (path ++ key (codes "estimated_watts") ∷ []),
          validate-watts s.measured_watts (path ++ key (codes "measured_watts") ∷ []),
        )
        refl

  pub sample_checks-IsSample :
      (s : ActivitySample F) (path : Place) → sample_checks path s ≡ ok tt → IsSample F s
  unfolding sample_checks
  sample_checks-IsSample s path h = ground arith

  pub IsSample-sample_checks :
      (s : ActivitySample F) (path : Place) → IsSample F s → sample_checks path s ≡ ok tt
  unfolding sample_checks
  IsSample-sample_checks s path h = ground arith
