-- ===== src/Fabrication/Logical.antt =====
-- tools/validate_fabrication.py: the checks of the logical pins, the tests and the blockers.
use lca.Prelude.{
  ℕ, ◌==◌, leb, ◌&&◌, not, Bool, true, false, if◌then◌else◌, List, [], ◌∷◌, ◌++◌, map, Option, none,
  some, ℤ, pos, Result, ok, ◌>>=◌, range_from,
}
use lca.Floats.{Floats}
use lca.Text.{Text, codes, starts_with}
use lca.Json.{Json, int, string, Fields, end, field, get, json_eq}
use lca.Fabrication.Access.{
  Crash, Problem, about, expect, expect_about, gather, value_at, dicts_at, text_at, is_text,
  is_number, is_in, contains, len_of, duplicate_values, expect_unique, same_set, all_in, texts,
  values_of, indexed,
}
use lca.Fabrication.Pinout.{physical_pins, physical_pin}

abbrev pub expected_signals : List Text
expected_signals =
    map (indexed "host_d") (range_from 0 16)
    ++ map (indexed "host_addr") (range_from 0 8)
    ++ (codes "req_valid"
        ∷ codes "req_ready"
        ∷ codes "req_write"
        ∷ codes "req_last"
        ∷ codes "rsp_valid"
        ∷ codes "rsp_ready"
        ∷ codes "rsp_last"
        ∷ codes "irq"
        ∷ codes "tamper_n"
        ∷ codes "zeroize_req"
        ∷ codes "busy"
        ∷ codes "fault"
        ∷ codes "zeroize_busy"
        ∷ codes "selftest_fail"
        ∷ codes "host_clk"
        ∷ [])
    ++ map (indexed "reserved") (range_from 0 5)

module _ (F : Floats) where
  open F use {Float}

  abbrev pub gpio_numbers : List (Json Float)
  gpio_numbers = map (λ n. int (pos n)) (range_from 0 44)

  abbrev pub is_any_text : Json Float → Bool
  is_any_text (string s) = true
  is_any_text v = false

  -- Whether the pad of an entry is set as its direction needs; none for an unknown direction.
  abbrev pub pad_is_safe : Fields Float → Option Bool
  unfolding json_eq
  pad_is_safe entry =
      let direction = value_at F (codes "direction") entry in
      let dm = value_at F (codes "dm") entry in
      let oeb = value_at F (codes "oeb") entry in
      let inp_dis = value_at F (codes "inp_dis") entry in
      if is_text F direction (codes "input")
      then some (is_text F dm (codes "001") && is_number F oeb 1 && is_number F inp_dis 0)
      else if is_text F direction (codes "output")
      then some (is_text F dm (codes "110") && is_number F oeb 0 && is_number F inp_dis 1)
      else if is_text F direction (codes "bidirectional")
      then some (is_text F dm (codes "110") && is_any_text oeb && is_number F inp_dis 0)
      else if is_text F direction (codes "disabled")
      then some (is_text F dm (codes "000") && is_number F oeb 1 && is_number F inp_dis 1)
      else none

  unfoldable pub check_entry : List (ℕ × ℤ) → Fields Float → List (Problem F)
  unfolding json_eq physical_pin
  check_entry pins entry =
      let gpio = value_at F (codes "gpio") entry in
      expect_about F (json_eq F (value_at F (codes "qfn_pin") entry) (physical_pin F pins gpio))
        "GPIO logical/physical pin mismatch" gpio
      ++ elim (pad_is_safe entry) [
        | none ↦ about (codes "GPIO has unknown direction") gpio ∷ []
        | some safe ↦ expect_about F safe "GPIO pad mode is unsafe" gpio
      ]

  -- `signal_map.get(signal, {})`: the last entry of the signal.
  abbrev pub entry_of : Text → List (Fields Float) → Fields Float
  unfolding json_eq
  entry_of signal [] = end
  entry_of signal (entry ∷ entries) = elim (entry_of signal entries) [
    | end ↦ if is_text F (value_at F (codes "signal") entry) signal then entry else end
    | field k v fs ↦ field k v fs
  ]

  -- `any("test_mode" in signal for signal in signals)`
  unfoldable pub any_contains : Text → List (Json Float) → Result Crash Bool
  unfolding contains
  any_contains word [] = ok false
  any_contains word (v ∷ vs) =
      let later = any_contains word vs in
      contains F word v >>= λ found. if found then ok true else later

  unfoldable pub check_logical :
      List (Fields Float) → List (Fields Float) → Result Crash (List (Problem F))
  unfolding json_eq duplicate_values all_in physical_pins check_entry any_contains starts_with
  check_logical pinout logical = do
    covered ← same_set F (values_of F (codes "gpio") logical) gpio_numbers
    gpios ←
        expect_unique F (values_of F (codes "gpio") logical)
          "logical_io contains duplicate GPIO indices"
    signals ←
        expect_unique F (values_of F (codes "signal") logical)
          "logical_io contains duplicate signal names"
    pins ← physical_pins F pinout
    complete ← same_set F (values_of F (codes "signal") logical) (texts F expected_signals)
    safe_state ← text_at F (codes "safe_state") (entry_of (codes "tamper_n") logical)
    test_mode ← any_contains (codes "test_mode") (values_of F (codes "signal") logical)
    ok (
        gather F (
          expect F (covered) "logical_io must cover GPIO0-43 exactly"
          ∷ gpios
          ∷ signals
          ∷ gather F (map (check_entry pins) logical)
          ∷ expect F (complete) "logical_io signal set does not match LCA-LINK-16"
          ∷ expect F
              (is_number F (value_at F (codes "gpio") (entry_of (codes "host_clk") logical)) 38)
              "host_clk must be GPIO38"
          ∷ expect F (starts_with (codes "external pull-down") safe_state)
              "tamper_n must fail safe when disconnected"
          ∷ expect F (not test_mode) "Rev-A must not expose a test-mode pin"
          ∷ []))

  abbrev pub expect_tests : List (Json Float) → List Text → List (Problem F)
  unfolding is_in
  expect_tests ids [] = []
  expect_tests ids (required ∷ later) =
      expect_about F (is_in F (string required) ids) "ATE plan missing" (string required)
      ++ expect_tests ids later

  unfoldable pub check_tests : Fields Float → Result Crash (List (Problem F))
  unfolding is_in duplicate_values
  check_tests pack = do
    tests ← dicts_at F (codes "ate_tests") pack
    repeated ← expect_unique F (values_of F (codes "id") tests) "ATE test IDs must be unique"
    ok (
        repeated
        ++ expect_tests (values_of F (codes "id") tests) (
            codes "PKG-001"
            ∷ codes "PWR-001"
            ∷ codes "IF-001"
            ∷ codes "MEM-001"
            ∷ codes "KAT-KEC"
            ∷ codes "KAT-KEM"
            ∷ codes "KAT-DSA"
            ∷ codes "SEC-ZERO"
            ∷ codes "IF-BP"
            ∷ codes "CHAR-VF"
            ∷ codes "CHAR-PWR"
            ∷ []))

  unfoldable pub check_freeze : Fields Float → Fields Float → Result Crash (List (Problem F))
  unfolding json_eq
  check_freeze commercial pack = do
    blockers ← elim (get (codes "freeze_blockers") pack) [ none ↦ ok 0 | some v ↦ len_of F v ]
    ok (
        expect F (leb 8 blockers) "package freeze blockers are incomplete"
        ++ (if is_text F (value_at F (codes "package_status") pack) (codes "frozen")
            then gather F (
                expect F (blockers == 0) "frozen package cannot retain unresolved freeze blockers"
                ∷ expect F
                    (is_text F (value_at F (codes "contract_status") commercial) (codes "executed"))
                    "frozen package requires executed commercial terms"
                ∷ [])
            else []))
