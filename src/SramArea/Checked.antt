-- ===== src/SramArea/Checked.antt =====
-- What `check` of tools/sram_area.py finds in the plans.
use lca.Prelude.{
  ℕ, zero, suc, ◌+◌, ◌-◌, ◌*◌, ◌<◌, ltb, leb, ◌&&◌, ◌≡◌, refl, subst, List, [], ok, arith,
  Result-cases, inl, inr, false,
}
use lca.Floats.{Floats}
use lca.SramArea.Macros.{Macro, capacity_bytes, no_area, no_columns, zero_division, does_not_tile}
use lca.SramArea.Plan.{BankPlan, plain_plan, zero_float, realized_bytes, default_bus_bits}
use lca.SramArea.Tiling.{IsTiling, plan_bank-IsTiling}
use lca.SramArea.Check.{Problem, plan_problems, check_plan}

one_row_less :
    (r per_row capacity : ℕ)
    → per_row * suc r * capacity ≡ r * per_row * capacity + per_row * capacity
one_row_less r per_row capacity = omega arith

minimal :
    (rows per_row capacity target : ℕ)
    → per_row * rows * capacity < target + per_row * capacity
    → ltb 1 rows && leb target ((rows - 1) * per_row * capacity) ≡ false
minimal zero per_row capacity target h = ground arith
minimal (suc r) per_row capacity target h = ground (arith, one_row_less r per_row capacity)

module _ (F : Floats) where
  plan_problems-nil :
      (m : Macro F) (target : ℕ) (p : BankPlan F)
      → IsTiling F m target default_bus_bits p
      → plan_problems F m target p ≡ []
  unfolding plan_problems
  plan_problems-nil m target p t =
      rw
        (
          covered,
          minimal p.rows p.macros_per_row (capacity_bytes F m) target (
              subst
                (λ (n : Macro F).
                  p.macros_per_row * p.rows * capacity_bytes F n
                  < target + p.macros_per_row * capacity_bytes F m)
                t.macro_of t.no_spare),
          bus,
        )
        refl
    where
      covered : ltb (realized_bytes F p) target ≡ false
      covered = ground (arith, t.covers_target)

      bus : ltb (p.macros_per_row * m.word_bits) default_bus_bits ≡ false
      bus = ground (arith, t.covers_bus)

  -- For every macro and target, the plan checks of `check` report no problem: a plan on the default
  -- bus is never short, never has a row to spare and always covers the bus.
  pub check_plan-nil :
      (m : Macro F) (target : ℕ) (problems : List Problem)
      → check_plan F m target ≡ ok problems
      → problems ≡ []
  unfolding check_plan
  check_plan-nil m target problems h =
      elim (Result-cases (plain_plan F m target default_bus_bits)) [
        | inr (does_not_tile name bits b, failed) ↦ ground arith
        | inr (no_area, failed) ↦ absurd (ground arith)
        | inr (no_columns, failed) ↦ absurd (ground arith)
        | inr (zero_division, failed) ↦ absurd (ground arith)
        | inl (p, fine) ↦ ground (
          arith,
          plan_problems-nil m target p (
              plan_bank-IsTiling F m target default_bus_bits (zero_float F) (zero_float F)
                (zero_float F) p fine),
        )
      ]
