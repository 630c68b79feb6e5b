-- ===== src/Fabrication/ReleaseData.antt =====
-- fabrication/rev_a_release.json, as far as the checks read it.
use Prim.Native.String.{String}
use lca.Prelude.{ℤ, Bool, true, false, [], ◌∷◌}
use lca.Text.{codes}
use lca.Json.{Json, string, object, Fields, fields_of}
use lca.Fabrication.Entries.{list, text, number, flag}
use lca.Fabrication.ShellData.{shell_interface_value}

abbrev file : String → String → Bool → Json ℤ
file path disposition in_netlist = object (
    fields_of
      (text "path" path ∷ text "disposition" disposition ∷ flag "rev_a_netlist" in_netlist ∷ []))

abbrev rtl_disposition_value : Json ℤ
rtl_disposition_value = list (
    file "rtl/lca_butterfly.sv" "retain" false
    ∷ file "rtl/lca_chip_top.sv" "replace" false
    ∷ file "rtl/lca_host_frontend.sv" "remove" false
    ∷ file "rtl/lca_keccak_f1600.sv" "retain" true
    ∷ file "rtl/lca_modmul.sv" "retain" false
    ∷ file "rtl/lca_modmul_fast.sv" "retain" false
    ∷ file "rtl/lca_ntt_accel.sv" "modify" true
    ∷ file "rtl/lca_ntt_zetas.svh" "retain" true
    ∷ file "rtl/lca_secure_sram.sv" "replace" false
    ∷ [])

abbrev pub route_value : Json ℤ
route_value = object (
    fields_of (
      text "process" "SKY130"
      ∷ (
        codes "shell",
        object (
            fields_of (
              text "name" "OpenFrame"
              ∷ number "gpio_count" 44
              ∷ flag "management_cpu" false
              ∷ text "top_module" "openframe_project_wrapper"
              ∷ text "commit" "ca732a645568d89efc9db3052eadeca47c60cf4d"
              ∷ [])),
      )
      ∷ (
        codes "schedule",
        object (
            fields_of (
              text "commitment_date" "2026-10-08"
              ∷ text "tapeout_date" "2026-12-07"
              ∷ text "mask_release_date" "2026-12-21"
              ∷ text "lot_start_date" "2027-01-04"
              ∷ text "wafer_complete_date" "2027-04-24"
              ∷ text "packaging_start_date" "2027-05-11"
              ∷ text "board_start_date" "2027-05-20"
              ∷ text "delivery_date" "2027-05-25"
              ∷ text "status" "planning_snapshot_not_reservation"
              ∷ [])),
      )
      ∷ (
        codes "commercial_snapshot",
        object (
            fields_of (
              text "reservation_status" "not_authorized"
              ∷ text "contract_status" "not_executed"
              ∷ number "included_qfn_parts" 100
              ∷ [])),
      )
      ∷ []))

abbrev pub product_boundary_value : Json ℤ
product_boundary_value = object (
    fields_of (
      (
        codes "excluded_functions",
        list (
            string (codes "PicoRV32 or any other on-die general-purpose CPU")
            ∷ string (codes "firmware ROM or mutable microcode")
            ∷ string (codes "whole-message, whole-ciphertext, or whole-signature retention")
            ∷ string (codes "autonomous ML-KEM key generation or encapsulation")
            ∷ string (codes "autonomous ML-DSA key generation or signing")
            ∷ string (
                codes
                  "complete protocol parsing, bridge policy, finality, replay protection, routing, or chain execution")
            ∷ string (codes "on-die entropy generation, key provisioning, or lifecycle fuses")
            ∷ string (codes "debug unlock, scan access, or unauthenticated factory-test mode")
            ∷ string (
                codes
                  "TEE, attestation, FIPS validation, side-channel resistance, fault resistance, or production-key claims")
            ∷ string
                (codes "AI inference acceleration or confidential-inference performance claims")
            ∷ []),
      )
      ∷ number "maximum_retained_external_object_bytes" 0
      ∷ flag "full_algorithm_commands_supported" false
      ∷ []))

abbrev pub memory_value : Json ℤ
memory_value = object (
    fields_of (
      flag "whole_message_buffer_forbidden" true
      ∷ (
        codes "baseline",
        object (
            fields_of (
              number "logical_capacity_bytes" 32768
              ∷ number "instances" 1
              ∷ text "macro" "CF_SRAM_8192x32"
              ∷ [])),
      )
      ∷ (
        codes "experiment",
        object (
            fields_of (
              number "logical_capacity_bytes" 65536
              ∷ number "instances" 2
              ∷ text "macro" "CF_SRAM_8192x32"
              ∷ [])),
      )
      ∷ (
        codes "zeroize",
        object (
            fields_of (
              flag "power_on_scrub_required" true
              ∷ flag "full_capacity_scrub_on_tamper" true
              ∷ flag "full_capacity_scrub_on_host_zeroize" true
              ∷ flag "ready_blocked_until_scrub_complete" true
              ∷ [])),
      )
      ∷ []))

abbrev pub release_gates_value : Json ℤ
release_gates_value = list (
    object (fields_of (text "id" "T0" ∷ text "status" "ready_for_independent_review" ∷ []))
    ∷ object (fields_of (text "id" "T1" ∷ text "status" "blocked" ∷ []))
    ∷ object (fields_of (text "id" "T2" ∷ text "status" "blocked" ∷ []))
    ∷ object (fields_of (text "id" "T3" ∷ text "status" "blocked" ∷ []))
    ∷ object (fields_of (text "id" "T4" ∷ text "status" "blocked" ∷ []))
    ∷ object (fields_of (text "id" "T5" ∷ text "status" "in_progress" ∷ []))
    ∷ object (fields_of (text "id" "T6" ∷ text "status" "blocked" ∷ []))
    ∷ object (fields_of (text "id" "T7" ∷ text "status" "blocked" ∷ []))
    ∷ [])

abbrev pub sources_value : Json ℤ
sources_value = list (
    object (fields_of (text "url" "https://chipfoundry.io/" ∷ text "retrieved" "2026-08-13" ∷ []))
    ∷ object
        (fields_of (text "url" "https://chipfoundry.io/faqs" ∷ text "retrieved" "2026-08-13" ∷ []))
    ∷ object (
        fields_of
          (text "url" "https://chipfoundry.io/soc_platforms" ∷ text "retrieved" "2026-08-13" ∷ []))
    ∷ object (
        fields_of (
          text "url" "https://chipfoundry.io/commercial-sram" ∷ text "retrieved" "2026-08-13" ∷ []))
    ∷ object (
        fields_of (
          text "url"
            "https://github.com/chipfoundry/openframe_user_project/tree/ca732a645568d89efc9db3052eadeca47c60cf4d"
          ∷ text "retrieved" "2026-08-13"
          ∷ []))
    ∷ object (
        fields_of (
          text "url"
            "https://github.com/chipfoundry/openframe_user_project/blob/ca732a645568d89efc9db3052eadeca47c60cf4d/docs/caravel_openframe_datasheet.pdf"
          ∷ text "retrieved" "2026-08-13"
          ∷ []))
    ∷ object (
        fields_of (
          text "url"
            "https://skywater-pdk.readthedocs.io/en/main/contents/libraries/sky130_fd_io/docs/user_guide.html"
          ∷ text "retrieved" "2026-08-13"
          ∷ []))
    ∷ [])

abbrev pub rev_a_release : Fields ℤ
rev_a_release = fields_of (
    number "schema_version" 1
    ∷ text "release_id" "LCA1-S0-REV-A"
    ∷ text "as_of" "2026-08-13"
    ∷ (codes "route", route_value)
    ∷ (codes "product_boundary", product_boundary_value)
    ∷ (codes "rtl_disposition", rtl_disposition_value)
    ∷ (codes "memory", memory_value)
    ∷ (codes "shell_interface", shell_interface_value)
    ∷ (codes "release_gates", release_gates_value)
    ∷ (codes "sources", sources_value)
    ∷ [])
