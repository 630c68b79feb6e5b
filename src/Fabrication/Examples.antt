-- ===== src/Fabrication/Examples.antt =====
-- The release manifests of the repository under the validator, and the theorems at them.
use lca.Prelude.{ℕ, pos, ◌≡◌, refl, List, [], ◌∷◌, Option, none, some, ok}
use lca.Text.{Text, codes, int_of, without_char, lower}
use lca.Floats.Integers.{integers}
use lca.Fabrication.Validate.{validate_contract}
use lca.Fabrication.Accepted.{IsBonded, validate_contract-IsBonded}
use lca.Fabrication.ReleaseData.{rev_a_release}
use lca.Fabrication.PackageData.{rev_a_package}

-- The digits of a date, which order days as the calendar does.
abbrev day_of : Text → Option ℕ
unfolding int_of without_char
day_of s = elim (int_of (without_char b'-' s)) [ some (pos n) ↦ some n | o ↦ none ]

abbrev rtl_files : List Text
rtl_files =
    codes "rtl/lca_butterfly.sv"
    ∷ codes "rtl/lca_chip_top.sv"
    ∷ codes "rtl/lca_host_frontend.sv"
    ∷ codes "rtl/lca_keccak_f1600.sv"
    ∷ codes "rtl/lca_modmul.sv"
    ∷ codes "rtl/lca_modmul_fast.sv"
    ∷ codes "rtl/lca_ntt_accel.sv"
    ∷ codes "rtl/lca_ntt_zetas.svh"
    ∷ codes "rtl/lca_secure_sram.sv"
    ∷ []

-- The manifests of the repository pass.
rev_a-accepted :
    validate_contract integers day_of rev_a_release rev_a_package (some rtl_files) ≡ ok []
unfolding validate_contract day_of lower
rev_a-accepted = refl

validate_contract-IsBonded_example : IsBonded integers rev_a_package
validate_contract-IsBonded_example =
    validate_contract-IsBonded integers day_of rev_a_release rev_a_package (some rtl_files)
      rev_a-accepted
