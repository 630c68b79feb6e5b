-- ===== src/SramArea/Tiling.antt =====
-- A bank plan covers its bus and its target, with no row to spare.
use native.Mathlib.Nat.{div-add-mod', mod-lt, mul-le-mul_right, le_trans}
use lca.Prelude.{
  ℕ, ◌+◌, ◌-◌, ◌*◌, ◌≤◌, ◌<◌, max, ◌≡◌, ◌⊎◌, ◌∙◌, refl, sym, subst, ok, arith, Bool-cases,
  Result-cases, Option-cases, inl, inr, none, some, not, ◌||◌,
}
use lca.Floats.{Floats}
use lca.SramArea.Macros.{Macro, capacity_bytes, outline}
use lca.SramArea.Plan.{
  BankPlan, ceil_div, instances, realized_bytes, try_columns, add_envelope, tiled, plan_bank,
  zero_float,
}

pub ceil_div-covers : (a b : ℕ) → 1 ≤ b → a ≤ ceil_div a b * b
unfolding ceil_div
ceil_div-covers a b h = omega (arith, div-add-mod' (a + (b - 1)) b, mod-lt (a + (b - 1)) h)

-- One less does not cover.
pub ceil_div_least : (a b : ℕ) → 1 ≤ b → ceil_div a b * b < a + b
unfolding ceil_div
ceil_div_least a b h = omega (arith, div-add-mod' (a + (b - 1)) b, mod-lt (a + (b - 1)) h)

module _ (F : Floats) where
  -- What the envelope leaves alone.
  pub record SameTiling (p p' : BankPlan F) : Type 0 where
    pub macro_of : p'.macro_of ≡ p.macro_of
    pub target_bytes : p'.target_bytes ≡ p.target_bytes
    pub macros_per_row : p'.macros_per_row ≡ p.macros_per_row
    pub rows : p'.rows ≡ p.rows

  add_envelope-SameTiling : (p p' : BankPlan F) → add_envelope F p ≡ ok p' → SameTiling p p'
  unfolding add_envelope
  add_envelope-SameTiling p p' h = elim (Option-cases (outline F p.macro_of)) [
    | inl missing ↦ record {
      macro_of = ground arith;
      target_bytes = ground arith;
      macros_per_row = ground arith;
      rows = ground arith;
    }
    | inr ((w, hh), drawn) ↦ elim (Result-cases (try_columns F p w hh 1 (instances F p) none)) [
      | inr (e, failed) ↦ absurd (ground arith)
      | inl (none, tried) ↦ absurd (ground arith)
      | inl (some c, tried) ↦ record {
        macro_of = ground arith;
        target_bytes = ground arith;
        macros_per_row = ground arith;
        rows = ground arith;
      }
    ]
  ]

  -- A bank that covers the bus and the target: the rows are full, and without the last of them the
  -- target is not reached.
  pub record IsTiling (m : Macro F) (target bus : ℕ) (p : BankPlan F) : Type 0 where
    pub macro_of : p.macro_of ≡ m
    pub covers_bus : bus ≤ p.macros_per_row * m.word_bits
    pub covers_target : target ≤ realized_bytes F p
    pub no_spare : realized_bytes F p < target + p.macros_per_row * capacity_bytes F m

  abbrev pub per_row : Macro F → ℕ → ℕ
  per_row m bus = max 1 (ceil_div bus m.word_bits)

  max_grows : (a b c : ℕ) → a ≤ b * c → a ≤ max 1 b * c
  max_grows a b c h = le_trans h (mul-le-mul_right c (omega arith))

  tiled-IsTiling :
      (m : Macro F) (target bus : ℕ) (x y margin : F.Float)
      → 1 ≤ m.word_bits
      → 1 ≤ per_row m bus * capacity_bytes F m
      → IsTiling m target bus (tiled F m target bus (per_row m bus) x y margin)
  tiled-IsTiling m target bus x y margin wide full = record {
    macro_of = refl;
    covers_bus =
        max_grows bus (ceil_div bus m.word_bits) m.word_bits (ceil_div-covers bus m.word_bits wide);
    covers_target = omega (arith, ceil_div-covers target (per_row m bus * capacity_bytes F m) full);
    no_spare = omega (arith, ceil_div_least target (per_row m bus * capacity_bytes F m) full);
  }

  IsTiling-same :
      (m : Macro F) (target bus : ℕ) (p p' : BankPlan F)
      → IsTiling m target bus p
      → SameTiling p p'
      → IsTiling m target bus p'
  IsTiling-same m target bus p p' t same = record {
    macro_of = same.macro_of ∙ t.macro_of;
    covers_bus = rw same.macros_per_row t.covers_bus;
    covers_target = rw (same.macros_per_row, same.rows, same.macro_of) t.covers_target;
    no_spare = rw (same.macros_per_row, same.rows, same.macro_of) t.no_spare;
  }

  -- What a successful call computes: the tiling, or the tiling with an envelope.
  pub plan_bank_cases :
      (m : Macro F) (target bus : ℕ) (x y margin : F.Float) (p : BankPlan F)
      → plan_bank F m target bus x y margin ≡ ok p
      → (1 ≤ m.word_bits)
        × (1 ≤ per_row m bus * capacity_bytes F m)
        × ((p ≡ tiled F m target bus (per_row m bus) x y margin)
            ⊎ (add_envelope F (tiled F m target bus (per_row m bus) x y margin) ≡ ok p))
  unfolding plan_bank
  plan_bank_cases m target bus x y margin p h = (
    ground arith,
    ground arith,
    elim (Bool-cases (
        not (F.eq x (zero_float F))
        || not (F.eq y (zero_float F))
        || not (F.eq margin (zero_float F)))) [
          | inl boxed ↦ inr (ground arith)
          | inr plain ↦ inl (ground arith)
        ],
  )

  -- Every plan that `plan_bank` returns, with or without an envelope, covers the bus with the macros
  -- of one row and the target with all rows, and with one row less it would miss the target.
  pub plan_bank-IsTiling :
      (m : Macro F) (target bus : ℕ) (x y margin : F.Float) (p : BankPlan F)
      → plan_bank F m target bus x y margin ≡ ok p
      → IsTiling m target bus p
  plan_bank-IsTiling m target bus x y margin p h = go (plan_bank_cases m target bus x y margin p h)
    where
      t : BankPlan F
      t = tiled F m target bus (per_row m bus) x y margin

      go :
          (1 ≤ m.word_bits)
            × (1 ≤ per_row m bus * capacity_bytes F m)
            × ((p ≡ t) ⊎ (add_envelope F t ≡ ok p))
          → IsTiling m target bus p
      go (wide, full, inl e) =
          subst (IsTiling m target bus) (sym e) (tiled-IsTiling m target bus x y margin wide full)
      go (wide, full, inr e) =
          IsTiling-same m target bus t p (tiled-IsTiling m target bus x y margin wide full)
            (add_envelope-SameTiling t p e)
