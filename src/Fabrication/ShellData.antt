-- ===== src/Fabrication/ShellData.antt =====
-- fabrication/rev_a_release.json: the shell interface, as far as the checks read it.
use lca.Prelude.{ℤ, [], ◌∷◌}
use lca.Text.{codes}
use lca.Json.{Json, object, fields_of}
use lca.Fabrication.Entries.{list, text, number}

abbrev pub shell_interface_value : Json ℤ
shell_interface_value = object (
    fields_of (
      number "clock_domains" 1
      ∷ number "data_width_bits" 16
      ∷ number "address_width_bits" 8
      ∷ number "maximum_outstanding_reads" 1
      ∷ text "clock_source" "GPIO38 / QFN pin 22"
      ∷ (
        codes "csr_halfwords",
        list (
            object (fields_of (text "address" "0x00" ∷ []))
            ∷ object (fields_of (text "address" "0x01" ∷ []))
            ∷ object (fields_of (text "address" "0x02" ∷ []))
            ∷ object (fields_of (text "address" "0x03" ∷ []))
            ∷ object (fields_of (text "address" "0x04" ∷ []))
            ∷ object (fields_of (text "address" "0x05" ∷ []))
            ∷ object (fields_of (text "address" "0x06" ∷ []))
            ∷ object (fields_of (text "address" "0x07" ∷ []))
            ∷ object (fields_of (text "address" "0x08" ∷ []))
            ∷ object (fields_of (text "address" "0x09" ∷ []))
            ∷ object (fields_of (text "address" "0x0a" ∷ []))
            ∷ object (fields_of (text "address" "0x0b" ∷ []))
            ∷ object (fields_of (text "address" "0x0c" ∷ []))
            ∷ object (fields_of (text "address" "0x0d" ∷ []))
            ∷ object (fields_of (text "address" "0x0e" ∷ []))
            ∷ []),
      )
      ∷ (
        codes "commands",
        list (
            object (fields_of (text "value" "0x0001" ∷ []))
            ∷ object (fields_of (text "value" "0x0002" ∷ []))
            ∷ object (fields_of (text "value" "0x0003" ∷ []))
            ∷ object (fields_of (text "value" "0x0004" ∷ []))
            ∷ object (fields_of (text "value" "0x0010" ∷ []))
            ∷ object (fields_of (text "value" "0x0020" ∷ []))
            ∷ object (fields_of (text "value" "0x007f" ∷ []))
            ∷ []),
      )
      ∷ (
        codes "error_codes",
        list (
            object (fields_of (text "value" "0x0000" ∷ []))
            ∷ object (fields_of (text "value" "0x0001" ∷ []))
            ∷ object (fields_of (text "value" "0x0002" ∷ []))
            ∷ object (fields_of (text "value" "0x0003" ∷ []))
            ∷ object (fields_of (text "value" "0x0004" ∷ []))
            ∷ object (fields_of (text "value" "0x0005" ∷ []))
            ∷ object (fields_of (text "value" "0x0006" ∷ []))
            ∷ object (fields_of (text "value" "0x0007" ∷ []))
            ∷ object (fields_of (text "value" "0x0008" ∷ []))
            ∷ object (fields_of (text "value" "0x0009" ∷ []))
            ∷ []),
      )
      ∷ (
        codes "reset_abort_zeroize",
        object (
            fields_of (
              text "power_on_behavior"
                "Keep req_ready low, outputs benign, and engines held until the complete SRAM scrub and self-test state initialization finish."
              ∷ text "abort_behavior"
                  "Discard partial requests and responses, clear engine state, and perform a complete scrub of every selected SRAM bank before accepting another request."
              ∷ text "tamper_behavior"
                  "An active-low tamper_n assertion is sticky, suppresses all externally visible secret data, and initiates full zeroize."
              ∷ text "illegal_request_behavior"
                  "Reject without modifying accelerator or SRAM state; latch a sticky error and assert irq/fault."
              ∷ text "zeroize_completion"
                  "Only deassert zeroize_busy and reassert req_ready after every selected SRAM bank and every retained engine state has been cleared."
              ∷ [])),
      )
      ∷ []))
