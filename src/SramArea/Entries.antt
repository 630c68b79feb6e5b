-- ===== src/SramArea/Entries.antt =====
-- What one entry of the report of tools/sram_area.py says of its macro.
use lca.Prelude.{
  ℕ, ◌+◌, ◌*◌, ◌≤◌, ◌<◌, ◌≡◌, ◌∙◌, refl, ap, sym, subst, ok, err, arith, Result-cases, inl, inr,
}
use lca.Text.{Text}
use lca.Floats.{Floats}
use lca.SramArea.Macros.{no_area, no_columns, zero_division, does_not_tile, Macro, capacity_bytes}
use lca.SramArea.Others.{cf_sram_8192x32}
use lca.SramArea.Plan.{BankPlan, realized_bytes, plan_bank}
use lca.SramArea.Tiling.{IsTiling, plan_bank-IsTiling}
use lca.SramArea.Report.{Entry, skipped, planned, PlanRecord, entry_of, plan_to_dict}

module _ (F : Floats) (round_to : F.Float → ℕ → F.Float) where
  abbrev E : Type 0
  E = Entry F round_to

  -- What an entry says of the macro that it is about.
  abbrev pub Describes : ℕ → ℕ → Macro F → E → Type 0
  Describes target bus m (skipped name reason) = name ≡ m.name
  Describes target bus m (planned r) =
      (r.macro_name ≡ m.name)
      × (target ≤ r.plan_realized_bytes)
      × (bus ≤ r.macros_per_row * m.word_bits)
      × (r.plan_realized_bytes < target + r.macros_per_row * r.macro_capacity_bytes)

  plan_to_dict-fields :
      (p : BankPlan F) (reference : Macro F) (r : PlanRecord F round_to)
      → plan_to_dict F round_to p reference ≡ ok r
      → (r.macro_name ≡ p.macro_of.name)
        × (r.plan_realized_bytes ≡ realized_bytes F p)
        × (r.macros_per_row ≡ p.macros_per_row)
        × (r.macro_capacity_bytes ≡ capacity_bytes F p.macro_of)
  unfolding plan_to_dict
  plan_to_dict-fields p reference r h = (ground arith, ground arith, ground arith, ground arith)

  pub entry_of-Describes :
      (target bus : ℕ) (x y margin : F.Float) (m : Macro F) (e : E)
      → entry_of F round_to target bus x y margin m ≡ ok e
      → Describes target bus m e
  unfolding entry_of
  entry_of-Describes target bus x y margin m e h =
      elim (Result-cases (plan_bank F m target bus x y margin)) [
        | inr (does_not_tile name bits b, failed) ↦
            subst (Describes target bus m) (skips name bits b failed) refl
        | inr (no_area, failed) ↦ absurd (ground arith)
        | inr (no_columns, failed) ↦ absurd (ground arith)
        | inr (zero_division, failed) ↦ absurd (ground arith)
        | inl (p, fine) ↦ elim (Result-cases (plan_to_dict F round_to p (cf_sram_8192x32 F))) [
          | inr (problem, failed) ↦ absurd (ground arith)
          | inl (r, recorded) ↦ subst (Describes target bus m) (plans p r fine recorded) (
              planned_fields p r (plan_bank-IsTiling F m target bus x y margin p fine)
                (plan_to_dict-fields p (cf_sram_8192x32 F) r recorded))
        ]
      ]
    where
      skips :
          (name : Text) (bits b : ℕ)
          → plan_bank F m target bus x y margin ≡ err (does_not_tile name bits b)
          → skipped m.name (does_not_tile name bits b) ≡ e
      skips name bits b failed = ground arith

      plans :
          (p : BankPlan F) (r : PlanRecord F round_to)
          → plan_bank F m target bus x y margin ≡ ok p
          → plan_to_dict F round_to p (cf_sram_8192x32 F) ≡ ok r
          → planned r ≡ e
      plans p r fine recorded = ground arith

      planned_fields :
          (p : BankPlan F) (r : PlanRecord F round_to)
          → IsTiling F m target bus p
          → (r.macro_name ≡ p.macro_of.name)
            × (r.plan_realized_bytes ≡ realized_bytes F p)
            × (r.macros_per_row ≡ p.macros_per_row)
            × (r.macro_capacity_bytes ≡ capacity_bytes F p.macro_of)
          → Describes target bus m (planned r)
      planned_fields p r t (named, realized, per_row, capacity) = (
        named ∙ ap (λ (n : Macro F). n.name) t.macro_of,
        rw realized t.covers_target,
        rw per_row t.covers_bus,
        rw (realized, per_row, capacity)
            (subst
              (λ (n : Macro F). realized_bytes F p < target + p.macros_per_row * capacity_bytes F n)
              (sym t.macro_of) t.no_spare),
      )
