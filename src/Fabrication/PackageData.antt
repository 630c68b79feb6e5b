-- ===== src/Fabrication/PackageData.antt =====
-- fabrication/rev_a_package.json, as far as the checks read it; a float is cut to its whole part,
-- as in the operations that the tests run on.
use lca.Prelude.{ℤ, pos, [], ◌∷◌}
use lca.Text.{codes}
use lca.Json.{Json, float, string, object, Fields, fields_of}
use lca.Fabrication.PinoutData.{pinout}
use lca.Fabrication.LogicalData.{logical}
use lca.Fabrication.Entries.{list, text, number}

abbrev pub source_shell_value : Json ℤ
source_shell_value =
    object (fields_of (text "commit" "ca732a645568d89efc9db3052eadeca47c60cf4d" ∷ []))

abbrev pub package_meta_value : Json ℤ
package_meta_value = object (
    fields_of (
      text "family" "QFN"
      ∷ number "pin_count" 64
      ∷ (codes "body_mm", list (float (pos 9) ∷ float (pos 9) ∷ []))
      ∷ (codes "pitch_mm", float (pos 0))
      ∷ text "exposed_paddle" "VSS"
      ∷ (
        codes "source_errata",
        list (
            string (
              codes
                "The datasheet Figure 2 maps QFN pin 31 to gpio[0] and pin 38 to vssa1. The later text table also maps pin 31 to gpio[0] but incorrectly lists vssa1 as pins 31 and 52. This manifest follows Figure 2 and blocks freeze until ChipFoundry confirms the correction.")
            ∷ []),
      )
      ∷ []))

abbrev pub ate_tests_value : Json ℤ
ate_tests_value = list (
    object (fields_of (text "id" "PKG-001" ∷ []))
    ∷ object (fields_of (text "id" "PWR-001" ∷ []))
    ∷ object (fields_of (text "id" "IF-001" ∷ []))
    ∷ object (fields_of (text "id" "MEM-001" ∷ []))
    ∷ object (fields_of (text "id" "KAT-KEC" ∷ []))
    ∷ object (fields_of (text "id" "KAT-KEM" ∷ []))
    ∷ object (fields_of (text "id" "KAT-DSA" ∷ []))
    ∷ object (fields_of (text "id" "SEC-ZERO" ∷ []))
    ∷ object (fields_of (text "id" "IF-BP" ∷ []))
    ∷ object (fields_of (text "id" "CHAR-VF" ∷ []))
    ∷ object (fields_of (text "id" "CHAR-PWR" ∷ []))
    ∷ [])

abbrev pub freeze_blockers_value : Json ℤ
freeze_blockers_value = list (
    string (
      codes
        "ChipFoundry confirmation that CI2612 uses this exact standard OpenFrame shell commit or a named successor.")
    ∷ string (
        codes
          "ChipFoundry confirmation of the Figure 2 pin map and correction of the pin-31/pin-38 vssa1 text-table conflict.")
    ∷ string (
        codes
          "Controlled 64-QFN mechanical drawing with body height, exposed-paddle dimensions, tolerances, terminal finish, and land-pattern recommendation.")
    ∷ string (
        codes
          "Package thermal and electrical/parasitic model plus per-pin and per-rail current limits.")
    ∷ string (
        codes
          "Package qualification data: MSL, reflow profile, ESD HBM/CDM class, storage, and handling requirements.")
    ∷ string (
        codes
          "CI2612 evaluation-board and M.2 daughter-card revisions with connector and rail mapping.")
    ∷ string (
        codes
          "Post-route simultaneous-switching, IR/EM, and signal-integrity review for the 16-bit bus.")
    ∷ string
        (codes "Assembly, socket, fixture, and test quotes with ownership and acceptance criteria.")
    ∷ string (
        codes
          "Vendor-approved final package drawing, bond map, assembly instructions, and marking/traceability plan.")
    ∷ [])

abbrev pub rev_a_package : Fields ℤ
rev_a_package = fields_of (
    number "schema_version" 1
    ∷ text "release_id" "LCA1-S0-REV-A"
    ∷ text "as_of" "2026-08-13"
    ∷ text "package_status" "provisional_pending_vendor_confirmation"
    ∷ (codes "source_shell", source_shell_value)
    ∷ (codes "package", package_meta_value)
    ∷ (codes "qfn_pinout", pinout)
    ∷ (codes "logical_io", logical)
    ∷ (codes "ate_tests", ate_tests_value)
    ∷ (codes "freeze_blockers", freeze_blockers_value)
    ∷ [])
