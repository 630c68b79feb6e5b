-- ===== src/PowerContract/Examples.antt =====
-- Tests of the power contract, and the theorems at concrete traces.
use lca.Prelude.{ℤ, pos, ◌≡◌, refl, [], ◌∷◌, some, none, false, ok, err, ◌↔◌, ◌*ℤ◌, ◌-ℤ◌, ◌+ℤ◌}
use lca.Text.{codes}
use lca.Vcd.{has_text}
use lca.Floats.Integers.{integers}
use lca.PowerContract.{
  ActivitySample, PowerTrace, validate_sample, validate_samples, validate, all_present,
  integrate_pairs, integrate_joules, IsTrace, validate_iff, not_increasing,
}

abbrev sample_at : ℤ → ℤ → ActivitySample integers
sample_at t w = record {
  timestamp_ns = t;
  state = codes "kem";
  active_lanes = pos 1;
  clock_hz = pos 100_000_000;
  estimated_watts = some w;
  measured_watts = none;
}

abbrev one_second : PowerTrace integers
one_second = record {
  source = codes "sim";
  hardware_id = codes "rtl";
  operation = codes "ntt";
  samples = sample_at (pos 0) (pos 2) ∷ sample_at (pos 1_000_000_000) (pos 4) ∷ [];
}

abbrev repeated : PowerTrace integers
repeated = record one_second {
  samples = sample_at (pos 7) (pos 2) ∷ sample_at (pos 7) (pos 4) ∷ [];
}

validate-one_second : validate integers one_second ≡ ok tt
unfolding validate validate_samples validate_sample has_text
validate-one_second = refl

validate-repeated : validate integers repeated ≡ err not_increasing
unfolding validate validate_samples validate_sample has_text
validate-repeated = refl

integrate_one_second : integrate_joules integers one_second false ≡ ok (pos 3)
unfolding integrate_joules validate validate_samples validate_sample has_text all_present
    integrate_pairs ◌*ℤ◌ ◌-ℤ◌ ◌+ℤ◌
integrate_one_second = refl

validate_iff_example : (validate integers one_second ≡ ok tt) ↔ IsTrace integers one_second
validate_iff_example = validate_iff integers one_second
