-- ===== src/Schema/Examples.antt =====
-- Tests of the schema checker, and the theorems at concrete documents.
use lca.Prelude.{ℕ, ℤ, ◌≡◌, ◌↔◌, ◌≤◌, refl, ok, err, [], ◌∷◌, length, pos, negsuc, some, none}
use lca.Text.{codes}
use lca.Json.{Json, int, array, object, end, field, items_of, json_eq}
use lca.Floats.Integers.{integers}
use lca.PowerContract.{ActivitySample, PowerTrace, validate}
use lca.Schema.{
  validate_against_schema, key, index, keywords_for, any_type, is_type, is_among, missing_property,
  below_minimum, trace_payload, trace_schema, Rises, validate-accepted_iff, MeetsEverywhere,
  validate-accepted_everywhere_iff,
}

abbrev sample_at : ℕ → ActivitySample integers
sample_at t = record {
  timestamp_ns = pos t;
  state = codes "dsa";
  active_lanes = pos 0;
  clock_hz = pos 1;
  estimated_watts = none;
  measured_watts = some (pos 3);
}

abbrev two_samples : PowerTrace integers
two_samples = record {
  source = codes "simulator";
  hardware_id = codes "rtl";
  operation = codes "ntt";
  samples = sample_at 0 ∷ sample_at 5 ∷ [];
}

abbrev minima : Json ℤ
minima = object (field (codes "items") (object (field (codes "minimum") (int (pos 2)) end)) end)

-- The error names the place: the second item.
validate-low_item :
    validate_against_schema integers (array (items_of (int (pos 2) ∷ int (pos 1) ∷ []))) minima []
    ≡ err (below_minimum (index 1 ∷ []))
unfolding validate_against_schema keywords_for any_type is_type is_among json_eq
validate-low_item = refl

validate-extra_key :
    validate_against_schema integers
      (object (field (codes "x") (int (pos 1)) end))
      (trace_schema integers)
      (key (codes "top") ∷ [])
    ≡ err (missing_property (key (codes "top") ∷ []) (codes "schema_version"))
unfolding validate_against_schema keywords_for any_type is_type is_among json_eq
validate-extra_key = refl

validate-accepted_iff_example :
    ((validate integers two_samples ≡ ok tt) × (2 ≤ length two_samples.samples)) ↔ (
      (validate_against_schema integers
          (trace_payload integers two_samples end)
          (trace_schema integers)
          []
        ≡ ok tt)
      × Rises integers (negsuc 0) two_samples.samples)
validate-accepted_iff_example = validate-accepted_iff integers two_samples end

abbrev two_numbers : Json ℤ
two_numbers = array (items_of (int (pos 2) ∷ int (pos 3) ∷ []))

validate-accepted_everywhere_iff_example :
    (validate_against_schema integers two_numbers minima [] ≡ ok tt)
    ↔ MeetsEverywhere integers two_numbers minima
validate-accepted_everywhere_iff_example =
    validate-accepted_everywhere_iff integers two_numbers minima []
