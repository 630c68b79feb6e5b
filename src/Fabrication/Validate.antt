-- ===== src/Fabrication/Validate.antt =====
-- tools/validate_fabrication.py: `validate_contract`, and the exit status of `main` on two
-- manifests that are read.
use lca.Prelude.{ℕ, List, [], ◌∷◌, Option, none, some, Result, ok, ◌>>=◌}
use lca.Floats.{Floats}
use lca.Text.{Text, codes}
use lca.Json.{Json, object, Fields, json_eq}
use lca.Fabrication.Access.{Crash, Problem, gather, dict_at, dicts_at}
use lca.Fabrication.Release.{
  check_identity, check_dates, check_shell, check_schedule, check_commercial, check_boundary,
}
use lca.Fabrication.Design.{
  check_dispositions, check_memory, check_interface, check_gates, check_sources,
}
use lca.Fabrication.Pinout.{check_package, check_pins}
use lca.Fabrication.Logical.{check_logical, check_tests, check_freeze}

module _ (F : Floats) where
  open F use {Float}

  -- The checks of the package manifest.
  unfoldable pub package_errors : Fields Float → Fields Float → Result Crash (List (Problem F))
  unfolding check_package check_pins check_logical check_tests check_freeze
  package_errors release pack = do
    route ← dict_at F (codes "route") release
    commercial ← dict_at F (codes "commercial_snapshot") route
    meta ← check_package F pack
    pinout ← dicts_at F (codes "qfn_pinout") pack
    logical ← dicts_at F (codes "logical_io") pack
    pins ← check_pins F pinout
    signals ← check_logical F pinout logical
    tests ← check_tests F pack
    freeze ← check_freeze F commercial pack
    ok (gather F (meta ∷ pins ∷ signals ∷ tests ∷ freeze ∷ []))

  -- `_load_json`: a manifest that is no dictionary is refused with a ContractError.
  abbrev pub manifest_of : Json Float → Option (Fields Float)
  manifest_of (object d) = some d
  manifest_of v = none

module _ (F : Floats) (date_of : Text → Option ℕ) where
  open F use {Float}

  -- The checks of the release manifest.
  unfoldable pub release_errors :
      Fields Float → Fields Float → Option (List Text) → Result Crash (List (Problem F))
  unfolding json_eq check_shell check_schedule check_commercial check_boundary check_dispositions
      check_memory check_interface check_gates check_sources check_dates
  release_errors release pack discovered_rtl = do
    route ← dict_at F (codes "route") release
    shell_fields ← dict_at F (codes "shell") route
    shell ← check_shell F route shell_fields pack
    schedule ← check_schedule F date_of route
    commercial ← check_commercial F route
    boundary ← check_boundary F release
    dispositions ← check_dispositions F discovered_rtl release
    memory ← check_memory F release
    interface ← check_interface F release
    gates ← check_gates F release
    sources ← check_sources F date_of release
    ok (
        gather F (
          check_identity F release pack
          ∷ check_dates F date_of release pack
          ∷ shell
          ∷ schedule
          ∷ commercial
          ∷ boundary
          ∷ dispositions
          ∷ memory
          ∷ interface
          ∷ gates
          ∷ sources
          ∷ []))

  unfoldable pub validate_contract :
      Fields Float → Fields Float → Option (List Text) → Result Crash (List (Problem F))
  unfolding release_errors package_errors
  validate_contract release pack discovered_rtl = do
    first ← release_errors release pack discovered_rtl
    second ← package_errors F release pack
    ok (gather F (first ∷ second ∷ []))

  -- What `main` returns: a crash is a traceback.
  unfoldable pub exit_status : Json Float → Json Float → Option (List Text) → Result Crash ℕ
  unfolding validate_contract
  exit_status release pack discovered_rtl = elim (manifest_of F release) [
    | none ↦ ok 1
    | some r ↦ elim (manifest_of F pack) [
      | none ↦ ok 1
      | some p ↦ validate_contract r p discovered_rtl >>= λ errors.
          ok (elim errors [ [] ↦ 0 | e ∷ es ↦ 1 ])
    ]
  ]
