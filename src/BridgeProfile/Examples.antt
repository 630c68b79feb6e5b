-- ===== src/BridgeProfile/Examples.antt =====
-- A test of the account, and the theorem at it.
use lca.Prelude.{ℤ, pos, ◌≡◌, refl, [], ◌∷◌, some, none, ok, ◌<ℤ◌, ◌*ℤ◌, ◌+ℤ◌}
use lca.Text.{Text, codes}
use lca.Dict.{Dict, lookup}
use lca.Vcd.{has_text}
use lca.Floats.Integers.{integers}
use lca.BridgeProfile.Defs.{
  PrimitiveMeasurement, Summary, Line, authenticated, count_map, validate_counts,
  validate_measurement, account, summarize, line_of,
}
use lca.BridgeProfile.Totals.{Lists, latency_sum, energy_sum, summarize-sums}

abbrev measured : ℤ → PrimitiveMeasurement integers
measured t = record { latency_ns = t; energy_uj = some (pos 3) }

abbrev without_energy : ℤ → PrimitiveMeasurement integers
without_energy t = record { latency_ns = t; energy_uj = none }

abbrev measurements : Dict (PrimitiveMeasurement integers)
measurements =
    (codes "dsa_sign", measured (pos 40))
    ∷ (codes "kem_encaps", measured (pos 10))
    ∷ (codes "kem_decaps", measured (pos 20))
    ∷ (codes "dsa_verify", without_energy (pos 30))
    ∷ []

abbrev line : Text → ℤ → PrimitiveMeasurement integers → Line integers
line name count m = line_of integers name count m

-- Two transfers; one primitive has no energy, so the sum has none.
abbrev two_transfers : Summary integers
two_transfers = record {
  transfers = pos 2;
  primitive_latency_sum_ns = pos 340;
  primitive_energy_sum_uj = none;
  breakdown =
      line (codes "kem_encaps") (pos 2) (measured (pos 10))
      ∷ line (codes "kem_decaps") (pos 2) (measured (pos 20))
      ∷ line (codes "dsa_sign") (pos 4) (measured (pos 40))
      ∷ line (codes "dsa_verify") (pos 4) (without_energy (pos 30))
      ∷ [];
}

summarize_two : summarize integers authenticated measurements (pos 2) ≡ ok two_transfers
unfolding summarize validate_counts validate_measurement account lookup has_text ◌*ℤ◌ ◌+ℤ◌
summarize_two = refl

summarize-sums_example :
    Lists integers measurements (pos 2) (count_map authenticated) two_transfers.breakdown
    × (pos 340 ≡ latency_sum integers (pos 0) two_transfers.breakdown)
    × (none ≡ energy_sum integers (pos 0) two_transfers.breakdown)
    × (pos 2 ≡ pos 2)
    × (pos 0 <ℤ pos 2)
summarize-sums_example =
    summarize-sums integers authenticated measurements (pos 2) two_transfers summarize_two
