-- ===== src/SramArea/Report.antt =====
-- tools/sram_area.py: the record of a plan, and the report over every macro and target.
use lca.Prelude.{
  ℕ, ◌/◌, ◌==◌, Bool, true, false, if◌then◌else◌, List, [], ◌∷◌, Option, none, some, Result, ok,
  err, ◌>>=◌, ◌>>◌, raise_if, map_result,
}
use lca.Text.{Text, codes, text_eq}
use lca.Floats.{Floats}
use lca.SramArea.Macros.{
  SramError, zero_division, does_not_tile, Macro, decimal, capacity_bytes, area_mm2, mm2_per_kib,
}
use lca.SramArea.Others.{macros, cf_sram_8192x32}
use lca.SramArea.Plan.{
  BankPlan, Warning, Comparison, instances, realized_bytes, macro_area_mm2, overprovision_bytes,
  envelope_mm2, plan_bank, compare_to_reference,
}

module _ (F : Floats) (round_to : F.Float → ℕ → F.Float) where
  open F use {Float, of_int, mul, div, lt, eq}

  abbrev pub openframe_user_area_mm2 : Float
  openframe_user_area_mm2 = decimal F 150 1

  pub record Envelope : Type 0 where
    pub columns : ℕ
    pub rows : ℕ
    pub channel_x_um : Float
    pub channel_y_um : Float
    pub margin_um : Float
    pub width_um : Float
    pub height_um : Float
    pub area_mm2 : Float

  pub record PlanRecord : Type 0 where
    pub macro_name : Text
    pub key : Text
    pub license : Text
    pub obtainable_view : Bool
    pub geometry_provenance : Text
    pub geometry_source : Text
    pub geometry_quoted : Text
    pub macro_words : ℕ
    pub macro_word_bits : ℕ
    pub macro_capacity_bytes : ℕ
    pub macro_area : Float
    pub macro_mm2_per_kib : Float
    pub target_bytes : ℕ
    pub bus_bits : ℕ
    pub macros_per_row : ℕ
    pub rows : ℕ
    pub plan_instances : ℕ
    pub plan_realized_bytes : ℕ
    pub plan_overprovision_bytes : ℕ
    pub total_macro_area_mm2 : Float
    pub total_macro_area_provenance : Text
    pub openframe_user_area_fraction : Float
    pub warnings : List Warning
    pub array_envelope_estimate : Option Envelope
    pub comparison : Option (Comparison F)

  -- A plan that has no envelope has zero columns; the division is only made where there is one.
  unfoldable pub envelope_record : BankPlan F → Result SramError (Option Envelope)
  envelope_record plan = elim (envelope_mm2 F plan) [
    | none ↦ ok none
    | some area ↦ do
      raise_if (plan.columns == 0) zero_division
      ok (
          some (record {
            columns = plan.columns;
            rows = instances F plan / plan.columns;
            channel_x_um = plan.channel_x_um;
            channel_y_um = plan.channel_y_um;
            margin_um = plan.margin_um;
            width_um = round_to plan.envelope_w_um 3;
            height_um = round_to plan.envelope_h_um 3;
            area_mm2 = round_to area 6;
          }))
  ]

  abbrev comparison_of : BankPlan F → Macro F → Result SramError (Option (Comparison F))
  comparison_of plan reference =
      if text_eq plan.macro_of.key reference.key
      then ok none
      else (compare_to_reference F round_to plan reference >>= λ c. ok (some c))

  unfoldable pub plan_to_dict : BankPlan F → Macro F → Result SramError PlanRecord
  plan_to_dict plan reference = do
    let m = plan.macro_of
    area ← area_mm2 F m
    density ← mm2_per_kib F m
    total ← macro_area_mm2 F plan
    envelope ← envelope_record plan
    comparison ← comparison_of plan reference
    ok (record {
      macro_name = m.name;
      key = m.key;
      license = m.license;
      obtainable_view = m.obtainable;
      geometry_provenance = m.provenance;
      geometry_source = m.source_url;
      geometry_quoted = m.size_line;
      macro_words = m.words;
      macro_word_bits = m.word_bits;
      macro_capacity_bytes = capacity_bytes F m;
      macro_area = round_to area 6;
      macro_mm2_per_kib = round_to density 6;
      target_bytes = plan.target_bytes;
      bus_bits = plan.bus_bits;
      macros_per_row = plan.macros_per_row;
      rows = plan.rows;
      plan_instances = instances F plan;
      plan_realized_bytes = realized_bytes F plan;
      plan_overprovision_bytes = overprovision_bytes F plan;
      total_macro_area_mm2 = round_to total 6;
      total_macro_area_provenance =
          if text_eq m.provenance (codes "vendor_datasheet")
          then codes "computed_from_vendor_datasheet"
          else codes "computed";
      openframe_user_area_fraction = round_to (div total openframe_user_area_mm2) 4;
      warnings = plan.warnings;
      array_envelope_estimate = envelope;
      comparison = comparison;
    })

  -- A macro that does not tile the bus is skipped with the reason.
  pub data Entry : Type 0 where
    skipped : Text → SramError → Entry
    planned : PlanRecord → Entry

  abbrev pub entry_name : Entry → Text
  entry_name (skipped name reason) = name
  entry_name (planned r) = r.macro_name

  -- `item.get("total_macro_area_mm2", math.inf)`: none is infinity.
  abbrev pub entry_area : Entry → Option Float
  entry_area (skipped name reason) = none
  entry_area (planned r) = some r.total_macro_area_mm2

  abbrev pub area_below : Option Float → Option Float → Bool
  area_below none b = false
  area_below (some a) none = true
  area_below (some a) (some b) = lt a b

  -- The stable sort by area: an entry goes after those that are not above it.
  unfoldable pub insert_entry : Entry → List Entry → List Entry
  insert_entry e [] = e ∷ []
  insert_entry e (x ∷ xs) =
      if area_below (entry_area x) (entry_area e) then x ∷ insert_entry e xs else e ∷ x ∷ xs

  unfoldable pub sort_entries : List Entry → List Entry
  unfolding insert_entry
  sort_entries [] = []
  sort_entries (e ∷ es) = insert_entry e (sort_entries es)

  -- Only the ValueError of `plan_bank` is caught.
  unfoldable pub entry_of : ℕ → ℕ → Float → Float → Float → Macro F → Result SramError Entry
  entry_of target bus x y margin m = elim (plan_bank F m target bus x y margin) [
    | err (does_not_tile name bits b) ↦ ok (skipped m.name (does_not_tile name bits b))
    | err e ↦ err e
    | ok plan ↦ plan_to_dict plan (cf_sram_8192x32 F) >>= λ r. ok (planned r)
  ]

  -- The plans of one target.
  unfoldable pub target_plans : ℕ → Float → Float → Float → ℕ → Result SramError (List Entry)
  unfolding sort_entries
  target_plans bus x y margin target = do
    entries ← map_result (entry_of target bus x y margin) (macros F)
    ok (sort_entries entries)

  -- The dictionary from a number of KiB to plans; a number that comes again is replaced.
  unfoldable pub store_plans : ℕ → List Entry → List (ℕ × List Entry) → List (ℕ × List Entry)
  store_plans kib plans [] = (kib, plans) ∷ []
  store_plans kib plans ((k, old) ∷ rest) =
      if k == kib then (k, plans) ∷ rest else (k, old) ∷ store_plans kib plans rest

  unfoldable pub report_from :
      ℕ
      → Float
      → Float
      → Float
      → List (ℕ × List Entry)
      → List ℕ
      → Result SramError (List (ℕ × List Entry))
  unfolding store_plans
  report_from bus x y margin report [] = ok report
  report_from bus x y margin report (target ∷ targets) =
      target_plans bus x y margin target >>= λ plans.
      report_from bus x y margin (store_plans (target / 1024) plans report) targets

  unfoldable pub build_report :
      List ℕ → ℕ → Float → Float → Float → Result SramError (List (ℕ × List Entry))
  unfolding report_from
  build_report targets bus x y margin = report_from bus x y margin [] targets
