-- ===== src/Fabrication/Design.antt =====
-- tools/validate_fabrication.py: the checks of the source files' disposition, the memory, the host
-- interface, the gates and the sources. The set of the files under rtl/ is an argument.
use lca.Prelude.{
  ℕ, leb, ◌&&◌, Bool, true, false, if◌then◌else◌, List, [], ◌∷◌, ◌++◌, map, Option, none, some,
  Result, ok, err, ◌>>=◌, map_result, length,
}
use lca.Floats.{Floats}
use lca.Text.{Text, codes, find?, starts_with}
use lca.Json.{Json, string, object, Fields, get, json_eq}
use lca.Fabrication.Access.{
  Crash, index_error, Problem, expect, expect_about, gather, value_at, dict_at, dicts_at, text_at,
  is_text, is_number, is_true, is_false, is_in, contains, len_of, duplicate_values, expect_unique,
  same_set, all_in, in_set, any_has, texts, values_of,
}
use lca.Fabrication.Release.{parse_iso_date}

module _ (F : Floats) where
  open F use {Float}

  unfoldable pub check_disposition : Fields Float → Result Crash (List (Problem F))
  unfolding is_in json_eq
  check_disposition entry = do
    let disposition = value_at F (codes "disposition") entry in
        let path = value_at F (codes "path") entry in
        in_set F disposition
          (texts F (codes "retain" ∷ codes "modify" ∷ codes "replace" ∷ codes "remove" ∷ []))
        >>= λ allowed.
            in_set F disposition (texts F (codes "replace" ∷ codes "remove" ∷ [])) >>= λ dropped.
            ok (
              expect_about F allowed "invalid disposition" path
              ++ (if dropped
                  then expect_about F (is_false F (value_at F (codes "rev_a_netlist") entry))
                      "cannot be in the netlist when removed/replaced" path
                  else []))

  unfoldable pub check_dispositions :
      Option (List Text) → Fields Float → Result Crash (List (Problem F))
  unfolding check_disposition duplicate_values all_in
  check_dispositions discovered_rtl release = do
    dispositions ← dicts_at F (codes "rtl_disposition") release
    repeated ←
        expect_unique F (values_of F (codes "path") dispositions)
          "rtl_disposition contains duplicate paths"
    entries ← map_result check_disposition dispositions
    tree ← elim discovered_rtl [
      | none ↦ ok []
      | some files ↦
          same_set F (values_of F (codes "path") dispositions) (texts F files) >>= λ same. ok (
            expect F same
              "rtl_disposition must classify every and only current rtl/*.sv and rtl/*.svh file")
    ]
    ok (gather F (repeated ∷ gather F entries ∷ tree ∷ []))

  abbrev pub expect_all_true : Fields Float → List Text → List (Problem F)
  expect_all_true zeroize [] = []
  expect_all_true zeroize (key ∷ keys) =
      expect_about F (is_true F (value_at F key zeroize)) "memory.zeroize must be true" (string key)
      ++ expect_all_true zeroize keys

  abbrev pub zeroize_keys : List Text
  zeroize_keys =
      codes "power_on_scrub_required"
      ∷ codes "full_capacity_scrub_on_tamper"
      ∷ codes "full_capacity_scrub_on_host_zeroize"
      ∷ codes "ready_blocked_until_scrub_complete"
      ∷ []

  unfoldable pub check_memory : Fields Float → Result Crash (List (Problem F))
  unfolding json_eq
  check_memory release = do
    memory ← dict_at F (codes "memory") release
    baseline ← dict_at F (codes "baseline") memory
    experiment ← dict_at F (codes "experiment") memory
    zeroize ← dict_at F (codes "zeroize") memory
    ok (
        gather F (
          expect F (is_true F (value_at F (codes "whole_message_buffer_forbidden") memory))
            "whole-message SRAM use must be forbidden"
          ∷ expect F (is_number F (value_at F (codes "logical_capacity_bytes") baseline) 32768)
              "baseline SRAM must be exactly 32 KiB"
          ∷ expect F (is_number F (value_at F (codes "instances") baseline) 1)
              "baseline SRAM must use one selected macro"
          ∷ expect F (is_number F (value_at F (codes "logical_capacity_bytes") experiment) 65536)
              "experiment SRAM must be exactly 64 KiB"
          ∷ expect F (is_number F (value_at F (codes "instances") experiment) 2)
              "64-KiB experiment must use two selected macros"
          ∷ expect F
              (json_eq F (value_at F (codes "macro") baseline)
                (value_at F (codes "macro") experiment))
              "baseline and experiment must use the same macro family"
          ∷ expect_all_true zeroize zeroize_keys
          ∷ []))

  unfoldable pub check_contract_texts : Fields Float → List Text → Result Crash (List (Problem F))
  check_contract_texts contract [] = ok []
  check_contract_texts contract (key ∷ keys) = do
    length ← elim (get key contract) [ none ↦ ok 0 | some v ↦ len_of F v ]
    later ← check_contract_texts contract keys
    ok (expect_about F (leb 30 length) "reset/abort/zeroize contract missing" (string key) ++ later)

  unfoldable pub check_interface : Fields Float → Result Crash (List (Problem F))
  unfolding json_eq contains duplicate_values check_contract_texts
  check_interface release = do
    interface ← dict_at F (codes "shell_interface") release
    clock ← elim (get (codes "clock_source") interface) [
      | none ↦ ok false
      | some v ↦ contains F (codes "GPIO38") v
    ]
    registers ← dicts_at F (codes "csr_halfwords") interface
    commands ← dicts_at F (codes "commands") interface
    error_codes ← dicts_at F (codes "error_codes") interface
    addresses ←
        expect_unique F (values_of F (codes "address") registers) "CSR addresses must be unique"
    command_values ←
        expect_unique F (values_of F (codes "value") commands) "command values must be unique"
    error_values ←
        expect_unique F (values_of F (codes "value") error_codes) "error values must be unique"
    contract ← dict_at F (codes "reset_abort_zeroize") interface
    behaviours ← check_contract_texts contract (
        codes "power_on_behavior"
        ∷ codes "abort_behavior"
        ∷ codes "tamper_behavior"
        ∷ codes "illegal_request_behavior"
        ∷ codes "zeroize_completion"
        ∷ [])
    ok (
        gather F (
          expect F (is_number F (value_at F (codes "clock_domains") interface) 1)
            "Rev-A must have one functional clock domain"
          ∷ expect F (is_number F (value_at F (codes "data_width_bits") interface) 16)
              "LCA-LINK data width must be 16"
          ∷ expect F (is_number F (value_at F (codes "address_width_bits") interface) 8)
              "LCA-LINK address width must be 8"
          ∷ expect F (is_number F (value_at F (codes "maximum_outstanding_reads") interface) 1)
              "LCA-LINK must allow only one outstanding read"
          ∷ expect F (clock) "clock source must name GPIO38"
          ∷ addresses
          ∷ command_values
          ∷ error_values
          ∷ behaviours
          ∷ []))

  -- `values == [text, ...]`
  abbrev pub are_texts : List (Json Float) → List Text → Bool
  unfolding json_eq
  are_texts [] [] = true
  are_texts (v ∷ vs) (t ∷ ts) = is_text F v t && are_texts vs ts
  are_texts vs ts = false

  -- `gates[0]` and `gates[-1]`
  abbrev pub first_of : List (Fields Float) → Result Crash (Fields Float)
  first_of [] = err index_error
  first_of (gate ∷ gates) = ok gate

  abbrev pub last_of : List (Fields Float) → Result Crash (Fields Float)
  last_of [] = err index_error
  last_of (gate ∷ []) = ok gate
  last_of (gate ∷ next ∷ gates) = last_of (next ∷ gates)

  unfoldable pub check_gates : Fields Float → Result Crash (List (Problem F))
  unfolding json_eq duplicate_values
  check_gates release = do
    gates ← dicts_at F (codes "release_gates") release
    repeated ← expect_unique F (values_of F (codes "id") gates) "release gate IDs must be unique"
    first ← first_of gates
    final ← last_of gates
    ok (
        gather F (
          repeated
          ∷ expect F
              (are_texts (values_of F (codes "id") gates) (
                codes "T0"
                ∷ codes "T1"
                ∷ codes "T2"
                ∷ codes "T3"
                ∷ codes "T4"
                ∷ codes "T5"
                ∷ codes "T6"
                ∷ codes "T7"
                ∷ []))
              "release gates must be ordered T0 through T7"
          ∷ expect F
              (is_text F (value_at F (codes "status") first) (codes "ready_for_independent_review"))
              "T0 must remain review-gated"
          ∷ expect F (is_text F (value_at F (codes "status") final) (codes "blocked"))
              "first-silicon gate cannot pass before silicon exists"
          ∷ []))

module _ (F : Floats) (date_of : Text → Option ℕ) where
  open F use {Float}

  abbrev pub is_https : Option (Json Float) → Bool
  unfolding starts_with
  is_https (some (string url)) = starts_with (codes "https://") url
  is_https v = false

  abbrev pub check_source : Fields Float → List (Problem F)
  unfolding starts_with
  check_source source =
      let (errors, day) =
        parse_iso_date F date_of (codes "source retrieved")
          (value_at F (codes "retrieved") source) in
      expect_about F (is_https (get (codes "url") source)) "source URL is not HTTPS" (object source)
      ++ errors

  abbrev pub check_fragments : List Text → List Text → List (Problem F)
  unfolding find?
  check_fragments urls [] = []
  check_fragments urls (fragment ∷ later) =
      expect_about F (any_has fragment urls) "missing primary source" (string fragment)
      ++ check_fragments urls later

  unfoldable pub check_sources : Fields Float → Result Crash (List (Problem F))
  unfolding starts_with find?
  check_sources release = do
    sources ← dicts_at F (codes "sources") release
    urls ← map_result (text_at F (codes "url")) sources
    ok (
        gather F (map check_source sources)
        ++ check_fragments urls (
            codes "chipfoundry.io/faqs"
            ∷ codes "openframe_user_project/tree/"
            ∷ codes "skywater-pdk.readthedocs.io"
            ∷ []))
