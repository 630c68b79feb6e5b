-- ===== src/SramArea/Plan.antt =====
-- tools/sram_area.py: tiling one macro into a bank. Sizes are natural numbers; `math.ceil(a / b)`
-- is the quotient rounded up, which the float division gives for sizes below 2 ** 53.
use lca.Prelude.{
  ℕ, zero, suc, ◌+◌, ◌-◌, ◌*◌, ◌/◌, ◌%◌, ◌==◌, max, ltb, ◌&&◌, ◌||◌, not, Bool, true, false,
  if◌then◌else◌, List, [], ◌∷◌, ◌++◌, Option, none, some, pos, Result, ok, err, ◌>>=◌, ◌>>◌,
  raise_if,
}
use lca.Text.{Text, codes, text_eq, starts_with}
use lca.Floats.{Floats}
use lca.SramArea.Macros.{
  SramError, no_columns, zero_division, does_not_tile, Macro, capacity_bytes, outline, area_mm2,
  cf_project_price_usd,
}

-- `math.ceil(a / b)` for a positive `b`.
unfoldable pub ceil_div : ℕ → ℕ → ℕ
ceil_div a b = (a + (b - 1)) / b

abbrev pub default_targets_bytes : List ℕ
default_targets_bytes = 32_768 ∷ 65_536 ∷ []

abbrev pub default_bus_bits : ℕ
default_bus_bits = 32

pub data Warning : Type 0 where
  no_view no_outline : Warning
  not_measured : Text → Warning

module _ (F : Floats) where
  open F use {Float, of_int, add, sub, mul, div, lt, eq}

  pub record BankPlan : Type 0 where
    pub macro_of : Macro F
    pub target_bytes : ℕ
    pub bus_bits : ℕ
    pub macros_per_row : ℕ
    pub rows : ℕ
    pub channel_x_um : Float
    pub channel_y_um : Float
    pub margin_um : Float
    pub columns : ℕ
    pub envelope_w_um : Float
    pub envelope_h_um : Float
    pub warnings : List Warning

  abbrev pub instances : BankPlan → ℕ
  instances p = p.macros_per_row * p.rows

  abbrev pub realized_bytes : BankPlan → ℕ
  realized_bytes p = instances p * capacity_bytes F p.macro_of

  abbrev pub macro_area_mm2 : BankPlan → Result SramError Float
  macro_area_mm2 p = do area ← area_mm2 F p.macro_of; ok (mul (of_int (pos (instances p))) area)

  -- The plan covers its target, so the difference is a natural number.
  abbrev pub overprovision_bytes : BankPlan → ℕ
  overprovision_bytes p = realized_bytes p - p.target_bytes

  abbrev pub zero_float : Float
  zero_float = of_int (pos 0)

  abbrev pub envelope_mm2 : BankPlan → Option Float
  envelope_mm2 p =
      if eq p.envelope_w_um zero_float || eq p.envelope_h_um zero_float
      then none
      else some (div (mul p.envelope_w_um p.envelope_h_um) (of_int (pos 1_000_000)))

  -- The tuple `(aspect, columns, width, height)`.
  pub record Candidate : Type 0 where
    pub aspect : Float
    pub columns : ℕ
    pub width : Float
    pub height : Float

  -- Tuples compare by their first components that differ; two candidates differ in the columns.
  unfoldable pub better : Candidate → Candidate → Bool
  better c best =
      if eq c.aspect best.aspect then ltb c.columns best.columns else lt c.aspect best.aspect

  -- One side of the box: the macros, the channels between them, and a margin at both ends.
  abbrev pub side : ℕ → Float → Float → Float → Float
  side count size channel margin =
      add (add (mul (of_int (pos count)) size) (mul (sub_one count) channel))
        (mul (of_int (pos 2)) margin)
    where
      sub_one : ℕ → Float
      sub_one n = of_int (pos (n - 1))

  unfoldable pub candidate : BankPlan → Float → Float → ℕ → Result SramError Candidate
  candidate p width_um height_um columns =
      let width = side columns width_um p.channel_x_um p.margin_um in
      let height = side (instances p / columns) height_um p.channel_y_um p.margin_um in
      let larger = if lt width height then height else width in
      let smaller = if lt height width then height else width in
      do
        raise_if (eq smaller zero_float) zero_division
        ok (record {
          aspect = div larger smaller;
          columns = columns;
          width = width;
          height = height;
        })

  abbrev pub keep_better : Option Candidate → Candidate → Candidate
  keep_better none c = c
  keep_better (some best) c = if better c best then c else best

  -- The loop over the columns, `columns` being the next one and `left` the number of them left.
  unfoldable pub try_columns :
      BankPlan → Float → Float → ℕ → ℕ → Option Candidate → Result SramError (Option Candidate)
  unfolding better
  try_columns p w h columns zero best = ok best
  try_columns p w h columns (suc left) best =
      if not (instances p % columns == 0)
      then try_columns p w h (suc columns) left best
      else (candidate p w h columns >>= λ c.
          try_columns p w h (suc columns) left (some (keep_better best c)))

  unfoldable pub add_envelope : BankPlan → Result SramError BankPlan
  unfolding try_columns
  add_envelope p = elim (outline F p.macro_of) [
    | none ↦ ok (record p { warnings = p.warnings ++ no_outline ∷ [] })
    | some (w, h) ↦ try_columns p w h 1 (instances p) none >>= λ best. elim best [
      | none ↦ err no_columns
      | some c ↦
          ok (record p { columns = c.columns; envelope_w_um = c.width; envelope_h_um = c.height })
    ]
  ]

  abbrev pub plan_warnings : Macro F → List Warning
  plan_warnings m =
      (if m.obtainable then [] else no_view ∷ [])
      ++ (if text_eq m.provenance (codes "lef_measured")
          then []
          else not_measured m.provenance ∷ [])

  abbrev pub tiled : Macro F → ℕ → ℕ → ℕ → Float → Float → Float → BankPlan
  tiled m target bus per_row x y margin = record {
    macro_of = m;
    target_bytes = target;
    bus_bits = bus;
    macros_per_row = per_row;
    rows = ceil_div target (per_row * capacity_bytes F m);
    channel_x_um = x;
    channel_y_um = y;
    margin_um = margin;
    columns = 0;
    envelope_w_um = zero_float;
    envelope_h_um = zero_float;
    warnings = plan_warnings m;
  }

  unfoldable pub plan_bank : Macro F → ℕ → ℕ → Float → Float → Float → Result SramError BankPlan
  plan_bank m target bus x y margin = do
    raise_if (m.word_bits == 0) zero_division
    raise_if (not (bus % m.word_bits == 0) && not (m.word_bits % bus == 0))
        (does_not_tile m.name m.word_bits bus)
    let per_row = max 1 (ceil_div bus m.word_bits)
    raise_if (per_row * capacity_bytes F m == 0) zero_division
    let plan = tiled m target bus per_row x y margin
    elim (not (eq x zero_float) || not (eq y zero_float) || not (eq margin zero_float)) [
      | true ↦ add_envelope plan
      | false ↦ ok plan
    ]

  -- A plan with no channels and no margin.
  abbrev pub plain_plan : Macro F → ℕ → ℕ → Result SramError BankPlan
  plain_plan m target bus = plan_bank m target bus zero_float zero_float zero_float

  pub record Comparison : Type 0 where
    pub reference_macro : Text
    pub reference_instances : ℕ
    pub reference_area_mm2 : Float
    pub reference_area_provenance : Text
    pub area_ratio_vs_reference : Float
    pub extra_area_mm2 : Float
    pub licence_cost_avoided_usd : ℕ

  -- `round_to` is Python's `round` to a number of places.
  module _ (round_to : Float → ℕ → Float) where
    unfoldable pub compare_to_reference : BankPlan → Macro F → Result SramError Comparison
    compare_to_reference plan reference = do
      ref_plan ← plain_plan reference plan.target_bytes plan.bus_bits
      ref_area ← macro_area_mm2 ref_plan
      area ← macro_area_mm2 plan
      raise_if (eq ref_area zero_float) zero_division
      let license = plan.macro_of.license
      ok (record {
        reference_macro = reference.name;
        reference_instances = instances ref_plan;
        reference_area_mm2 = round_to ref_area 6;
        reference_area_provenance = reference.provenance;
        area_ratio_vs_reference = round_to (div area ref_area) 4;
        extra_area_mm2 = round_to (sub area ref_area) 6;
        licence_cost_avoided_usd =
            if starts_with (codes "Apache") license || starts_with (codes "BSD") license
            then cf_project_price_usd
            else 0;
      })
