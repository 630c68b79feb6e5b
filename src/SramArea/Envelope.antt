-- ===== src/SramArea/Envelope.antt =====
-- When `plan_bank` succeeds, and which box its envelope is.
use native.Mathlib.Nat.{mul-le-mul_right}
use lca.Prelude.{
  ℕ, zero, suc, ◌*◌, ◌%◌, ◌≤◌, ◌==◌, max, ◌≡◌, ◌⊎◌, ◌↔◌, ◌&&◌, ok, arith, Bool-cases, inl, inr,
  true, false, Option, none, some, not,
}
use lca.Floats.{Floats}
use lca.SramArea.Macros.{Macro, capacity_bytes}
use lca.SramArea.Plan.{
  BankPlan, Candidate, candidate, ceil_div, instances, tiled, plan_bank, plain_plan, zero_float,
}
use lca.SramArea.Tiling.{plan_bank_cases, per_row}

one_le_mul : (a b : ℕ) → 1 ≤ b → 1 ≤ max 1 a * b
one_le_mul a b h = omega (arith, mul-le-mul_right b (one_le_max a))
  where
    one_le_max : (n : ℕ) → 1 ≤ max 1 n
    one_le_max n = omega arith

positive_factor : (a b : ℕ) → 1 ≤ a * b → 1 ≤ b
positive_factor a zero h = absurd (omega (arith, h))
positive_factor a (suc b) h = omega arith

clean_cases :
    (a b c d : ℕ) → not (a % b == 0) && not (c % d == 0) ≡ false → (a % b ≡ 0) ⊎ (c % d ≡ 0)
clean_cases a b c d h = elim (Bool-cases (a % b == 0)) [
  | inl zero_rest ↦ inl (ground arith)
  | inr other ↦ inr (ground arith)
]

module _ (F : Floats) where
  tiles :
      (m : Macro F) (target bus : ℕ) (p : BankPlan F)
      → plain_plan F m target bus ≡ ok p
      → not (bus % m.word_bits == 0) && not (m.word_bits % bus == 0) ≡ false
  unfolding plan_bank
  tiles m target bus p h = ground arith

  -- Where zero equals itself, a plan without channels and margin exists exactly for a macro of
  -- positive word width and capacity whose width divides the bus or is divided by it.
  pub plain_plan-ok_iff :
      (m : Macro F) (target bus : ℕ)
      → F.eq (zero_float F) (zero_float F) ≡ true
      → ((p : BankPlan F) × (plain_plan F m target bus ≡ ok p)) ↔ (
          (1 ≤ m.word_bits)
          × ((bus % m.word_bits ≡ 0) ⊎ (m.word_bits % bus ≡ 0))
          × (1 ≤ capacity_bytes F m))
  plain_plan-ok_iff m target bus same = (forth, back)
    where
      forth :
          (p : BankPlan F) × (plain_plan F m target bus ≡ ok p)
          → (1 ≤ m.word_bits)
            × ((bus % m.word_bits ≡ 0) ⊎ (m.word_bits % bus ≡ 0))
            × (1 ≤ capacity_bytes F m)
      forth (p, h) =
          let (wide, full, either) =
            plan_bank_cases F m target bus (zero_float F) (zero_float F) (zero_float F) p h in
          (
            wide,
            clean_cases bus m.word_bits m.word_bits bus (tiles m target bus p h),
            positive_factor (per_row F m bus) (capacity_bytes F m) full,
          )

      back :
          (1 ≤ m.word_bits)
            × ((bus % m.word_bits ≡ 0) ⊎ (m.word_bits % bus ≡ 0))
            × (1 ≤ capacity_bytes F m)
          → (p : BankPlan F) × (plain_plan F m target bus ≡ ok p)
      back (wide, clean, full) = (
        tiled F m target bus (per_row F m bus) (zero_float F) (zero_float F) (zero_float F),
        unfold plan_bank in
            ground (arith, one_le_mul (ceil_div bus m.word_bits) (capacity_bytes F m) full),
      )

  -- A candidate that the loop computed for a number of columns that divides the instances, with the width and height that the columns give.
  pub record IsCandidate (p : BankPlan F) (w h : F.Float) (c : Candidate F) : Type 0 where
    pub positive : 1 ≤ c.columns
    pub divides : instances F p % c.columns ≡ 0
    pub computed : candidate F p w h c.columns ≡ ok c

  abbrev Fits : BankPlan F → F.Float → F.Float → Option (Candidate F) → Type 0
  Fits p w h none = Unit
  Fits p w h (some c) = IsCandidate p w h c
