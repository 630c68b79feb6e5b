-- ===== src/SramArea/Examples.antt =====
-- Tests of the bank planner, and the theorems at concrete macros.
use mathlib.Core.List.{Perm}
use lca.Prelude.{
  ℕ, ◌≡◌, refl, List, [], map, some, Result, ok, err, ℤ, pos, ◌*ℤ◌, ◌+ℤ◌, ◌-ℤ◌, ◌↔◌, ◌≤◌, ◌*◌, ◌%◌,
  ◌/◌, ◌⊎◌, All,
}
use lca.Floats.Integers.{integers}
use lca.Text.{is_space, is_digit, strip_left, strip_prefix?, starts_with, ends_with}
use lca.Vcd.{has_text}
use lca.SramArea.Macros.{SramError, Macro, area_mm2, area_um2, mm2_per_kib}
use lca.SramArea.OpenRam.{openram_2kbyte_32x512}
use lca.SramArea.Others.{macros}
use lca.SramArea.Plan.{BankPlan, compare_to_reference, ceil_div, tiled, plan_bank, plain_plan}
use lca.SramArea.Tiling.{IsTiling, plan_bank-IsTiling}
use lca.SramArea.Envelope.{plain_plan-ok_iff}
use lca.SramArea.Check.{
  Problem, check_plan, plan_problems, check_macro, check_lef, check, search_size, match_size,
  span_number, float_of, decimal_digits,
}
use lca.SramArea.Report.{
  Entry, entry_name, entry_of, plan_to_dict, envelope_record, insert_entry, sort_entries,
  target_plans,
}
use lca.SramArea.Listing.{Fine, target_plans-Describes}
use lca.SramArea.Checked.{check_plan-nil}

abbrev big : Macro integers
big = openram_2kbyte_32x512 integers

abbrev big_plan : BankPlan integers
big_plan = tiled integers big 32_768 32 1 (pos 0) (pos 0) (pos 0)

plan_big : plain_plan integers big 32_768 32 ≡ ok big_plan
unfolding plan_bank ceil_div
plan_big = refl

-- Sixteen macros of 2 KiB.
rows_big : big_plan.rows ≡ 16
unfolding ceil_div
rows_big = refl

plan_bank-IsTiling_example : IsTiling integers big 32_768 32 big_plan
plan_bank-IsTiling_example =
    plan_bank-IsTiling integers big 32_768 32 (pos 0) (pos 0) (pos 0) big_plan plan_big

plain_plan-ok_iff_example :
    ((p : BankPlan integers) × (plain_plan integers big 32_768 32 ≡ ok p))
    ↔ ((1 ≤ 32) × ((32 % 32 ≡ 0) ⊎ (32 % 32 ≡ 0)) × (1 ≤ 512 * 32 / 8))
plain_plan-ok_iff_example = plain_plan-ok_iff integers big 32_768 32 refl

check_big : check_plan integers big 32_768 ≡ ok []
unfolding check_plan plan_bank ceil_div plan_problems
check_big = refl

abbrev no_problems : List Problem
no_problems = []

check_plan-nil_example : no_problems ≡ []
check_plan-nil_example = check_plan-nil integers big 32_768 [] check_big

check_table : check integers (macros integers) (some (some (pos 15))) ≡ ok []
unfolding check check_macro check_lef check_plan plan_bank ceil_div plan_problems has_text
    search_size match_size span_number float_of decimal_digits is_space is_digit strip_left
    strip_prefix? starts_with ends_with
check_table = refl

abbrev boxed_plan : BankPlan integers
boxed_plan = record big_plan { columns = 4; envelope_w_um = pos 2732; envelope_h_um = pos 1664 }

abbrev unrounded : ℤ → ℕ → ℤ
unrounded x places = x

abbrev plans_of :
    Result SramError (List (Entry integers unrounded)) → List (Entry integers unrounded)
plans_of (ok plans) = plans
plans_of (err e) = []

abbrev plans_32 : List (Entry integers unrounded)
plans_32 = plans_of (target_plans integers unrounded 32 (pos 0) (pos 0) (pos 0) 32_768)

report_32 : target_plans integers unrounded 32 (pos 0) (pos 0) (pos 0) 32_768 ≡ ok plans_32
unfolding target_plans entry_of plan_to_dict envelope_record compare_to_reference plan_bank ceil_div
    area_mm2 area_um2 mm2_per_kib sort_entries insert_entry starts_with strip_prefix? ◌*ℤ◌ ◌-ℤ◌ ◌+ℤ◌
report_32 = refl

target_plans-Describes_example :
    Perm
      (map (entry_name integers unrounded) plans_32)
      (map (λ (m : Macro integers). m.name) (macros integers))
    × All (Fine integers unrounded 32_768 32 (macros integers)) plans_32
target_plans-Describes_example =
    target_plans-Describes integers unrounded 32_768 32 (pos 0) (pos 0) (pos 0) plans_32 report_32
