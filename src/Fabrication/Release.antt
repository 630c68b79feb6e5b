-- ===== src/Fabrication/Release.antt =====
-- tools/validate_fabrication.py: the checks of the manifests' identity and of the route.
-- `date.fromisoformat` is an argument, the ordinal of the day or none for its ValueError.
use lca.Prelude.{
  ℕ, leb, ◌&&◌, Bool, true, false, List, [], ◌∷◌, ◌++◌, map, Option, none, some, Result, ok, ◌>>=◌,
  map_result,
}
use lca.Floats.{Floats}
use lca.Text.{Text, codes, find?, lower}
use lca.Json.{Json, string, Fields, json_eq}
use lca.Fabrication.Access.{
  Crash, Problem, about, expect, expect_about, gather, value_at, dict_at, list_at, as_text, is_text,
  is_number, is_false, any_has, is_commit,
}

module _ (F : Floats) where
  open F use {Float}

  abbrev pub check_identity : Fields Float → Fields Float → List (Problem F)
  unfolding json_eq
  check_identity release pack = gather F (
      expect F (is_number F (value_at F (codes "schema_version") release) 1)
        "release schema_version must be 1"
      ∷ expect F (is_number F (value_at F (codes "schema_version") pack) 1)
          "package schema_version must be 1"
      ∷ expect F
          (json_eq F (value_at F (codes "release_id") release)
              (value_at F (codes "release_id") pack)
            && is_text F (value_at F (codes "release_id") pack) (codes "LCA1-S0-REV-A"))
          "release_id must match LCA1-S0-REV-A in both manifests"
      ∷ [])

  abbrev pub commit_is_pinned : Json Float → Bool
  commit_is_pinned (string s) = is_commit s
  commit_is_pinned v = false

  unfoldable pub check_shell :
      Fields Float → Fields Float → Fields Float → Result Crash (List (Problem F))
  unfolding json_eq
  check_shell route shell pack = do
    source_shell ← dict_at F (codes "source_shell") pack
    ok (
        gather F (
          expect F (is_text F (value_at F (codes "process") route) (codes "SKY130"))
            "Rev-A process must be SKY130"
          ∷ expect F (is_text F (value_at F (codes "name") shell) (codes "OpenFrame"))
              "Rev-A shell must be OpenFrame"
          ∷ expect F (is_number F (value_at F (codes "gpio_count") shell) 44)
              "OpenFrame GPIO count must be 44"
          ∷ expect F (is_false F (value_at F (codes "management_cpu") shell))
              "OpenFrame route must not claim a management CPU"
          ∷ expect F
              (is_text F (value_at F (codes "top_module") shell)
                (codes "openframe_project_wrapper"))
              "OpenFrame top-module name drifted"
          ∷ expect F (commit_is_pinned (value_at F (codes "commit") shell))
              "OpenFrame source must be pinned to a 40-character commit"
          ∷ expect F
              (json_eq F (value_at F (codes "commit") shell)
                (value_at F (codes "commit") source_shell))
              "release and package manifests must pin the same OpenFrame commit"
          ∷ []))

  unfoldable pub check_commercial : Fields Float → Result Crash (List (Problem F))
  unfolding json_eq
  check_commercial route = do
    commercial ← dict_at F (codes "commercial_snapshot") route
    ok (
        gather F (
          expect F
            (is_text F (value_at F (codes "reservation_status") commercial)
              (codes "not_authorized"))
            "reservation must remain unauthorized"
          ∷ expect F
              (is_text F (value_at F (codes "contract_status") commercial) (codes "not_executed"))
              "contract must remain not executed"
          ∷ expect F (is_number F (value_at F (codes "included_qfn_parts") commercial) 100)
              "published package quantity must be 100"
          ∷ []))

  abbrev pub forbidden_functions : List Text
  forbidden_functions =
      codes "picorv32" ∷ codes "whole-message" ∷ codes "tee" ∷ codes "ai inference" ∷ []

  abbrev pub check_exclusions : List Text → List Text → List (Problem F)
  unfolding find?
  check_exclusions excluded [] = []
  check_exclusions excluded (forbidden ∷ later) =
      expect_about F (any_has forbidden excluded) "product exclusions must explicitly cover"
        (string forbidden)
      ++ check_exclusions excluded later

  unfoldable pub check_boundary : Fields Float → Result Crash (List (Problem F))
  unfolding json_eq find?
  check_boundary release = do
    boundary ← dict_at F (codes "product_boundary") release
    functions ← list_at F (codes "excluded_functions") boundary
    names ← map_result (as_text F) functions
    ok (
        gather F (
          check_exclusions (map lower names) forbidden_functions
          ∷ expect F
              (is_number F (value_at F (codes "maximum_retained_external_object_bytes") boundary) 0)
              "Rev-A must not retain complete externally supplied objects"
          ∷ expect F (is_false F (value_at F (codes "full_algorithm_commands_supported") boundary))
              "Rev-A must not claim full algorithms"
          ∷ []))

module _ (F : Floats) (date_of : Text → Option ℕ) where
  open F use {Float}

  -- `_parse_iso_date`: what it appends, and the date.
  abbrev pub parse_iso_date : Text → Json Float → List (Problem F) × Option ℕ
  parse_iso_date label (string s) = elim (date_of s) [
    | none ↦ (about (label ++ codes " must be an ISO-8601 date") (string s) ∷ [], none)
    | some day ↦ ([], some day)
  ]
  parse_iso_date label v = (about (label ++ codes " must be an ISO-8601 date") v ∷ [], none)

  abbrev pub schedule_fields : List Text
  schedule_fields =
      codes "commitment_date"
      ∷ codes "tapeout_date"
      ∷ codes "mask_release_date"
      ∷ codes "lot_start_date"
      ∷ codes "wafer_complete_date"
      ∷ codes "packaging_start_date"
      ∷ codes "board_start_date"
      ∷ codes "delivery_date"
      ∷ []

  -- The errors of the dates, and the dates if all of them parse.
  unfoldable pub parse_schedule : Fields Float → List Text → List (Problem F) × Option (List ℕ)
  parse_schedule schedule [] = ([], some [])
  parse_schedule schedule (name ∷ names) =
      let (errors, day) = parse_iso_date (codes "schedule." ++ name) (value_at F name schedule) in
      let (more, days) = parse_schedule schedule names in
      (
        errors ++ more,
        elim day [ none ↦ none | some d ↦ elim days [ none ↦ none | some ds ↦ some (d ∷ ds) ] ],
      )

  -- `parsed == sorted(parsed)`
  unfoldable pub is_sorted : List ℕ → Bool
  is_sorted [] = true
  is_sorted (d ∷ []) = true
  is_sorted (d ∷ e ∷ days) = leb d e && is_sorted (e ∷ days)

  unfoldable pub check_schedule : Fields Float → Result Crash (List (Problem F))
  unfolding json_eq parse_schedule is_sorted
  check_schedule route = do
    schedule ← dict_at F (codes "schedule") route
    let (errors, parsed) = parse_schedule schedule schedule_fields in
        ok (
          gather F (
            errors
            ∷ elim parsed [
              | none ↦ []
              | some days ↦ expect F (is_sorted days) "fabrication schedule dates must be monotonic"
            ]
            ∷ expect F
                (is_text F (value_at F (codes "status") schedule)
                  (codes "planning_snapshot_not_reservation"))
                "schedule must not imply a reservation before commercial authorization"
            ∷ []))

  unfoldable pub check_dates : Fields Float → Fields Float → List (Problem F)
  check_dates release pack =
      let (first, day) =
        parse_iso_date (codes "release.as_of") (value_at F (codes "as_of") release) in
      let (second, day') =
        parse_iso_date (codes "package.as_of") (value_at F (codes "as_of") pack) in
      first ++ second
