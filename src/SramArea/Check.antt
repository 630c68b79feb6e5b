-- ===== src/SramArea/Check.antt =====
-- `check` of tools/sram_area.py. The release file is read elsewhere: its area comes in as an
-- argument, none where there is no such file.
use lca.Prelude.{
  ℕ, suc, ◌+◌, ◌-◌, ◌*◌, ◌==◌, ltb, leb, ◌&&◌, ◌||◌, not, Bool, true, false, if◌then◌else◌, List,
  [], ◌∷◌, ◌++◌, map, Option, none, some, Result, ok, err, ◌>>=◌,
}
use lca.Text.{Text, codes, text_eq, strip_left, strip_prefix?, is_space, is_digit, ends_with}
use lca.Floats.{Floats}
use lca.Vcd.{has_text}
use lca.SramArea.Macros.{SramError, does_not_tile, Macro, decimal, capacity_bytes}
use lca.SramArea.Plan.{
  BankPlan, default_targets_bytes, default_bus_bits, realized_bytes, plain_plan,
}

pub data Problem : Type 0 where
  missing_source missing_license missing_quote unknown_provenance capacity_mismatch : Text → Problem
  non_positive no_view_path no_size_line size_disagrees no_quoted_area vendor_obtainable :
      Text → Problem
  duplicate_keys no_reference area_disagrees : Problem
  plan_short plan_not_minimal : Text → ℕ → Problem
  bus_not_covered : Text → Problem

-- `[problem] if test else []`
abbrev pub when_bad : Bool → Problem → List Problem
when_bad true problem = problem ∷ []
when_bad false problem = []

abbrev pub is_number_char : ℕ → Bool
unfolding is_digit
is_number_char c = is_digit c || c == b'.'

abbrev pub and_then {ℓ κ} : {A : Type ℓ} {B : Type κ} → Option A → (A → Option B) → Option B
and_then none f = none
and_then (some a) f = f a

-- `[0-9.]+` from here.
unfoldable pub span_number : Text → Text × Text
unfolding is_digit
span_number [] = ([], [])
span_number (c ∷ s) =
    let (digits, rest) = span_number s in
    if is_number_char c then (c ∷ digits, rest) else ([], c ∷ s)

-- `\s+` from here.
abbrev pub some_spaces : Text → Option Text
unfolding strip_left is_space
some_spaces [] = none
some_spaces (c ∷ s) = if is_space c then some (strip_left s) else none

abbrev pub nonempty_number : Text × Text → Option (Text × Text)
nonempty_number ([], rest) = none
nonempty_number (d ∷ ds, rest) = some (d ∷ ds, rest)

-- The pattern of a SIZE line, matched from here: the two numbers.
unfoldable pub match_size : Text → Option (Text × Text)
unfolding span_number strip_prefix? strip_left
match_size s = and_then (strip_prefix? (codes "SIZE") s) λ after.
    and_then (some_spaces after) λ at_width.
      and_then (nonempty_number (span_number at_width)) λ (width, after_width).
        and_then (some_spaces after_width) λ at_by.
          and_then (strip_prefix? (codes "BY") at_by) λ after_by.
            and_then (some_spaces after_by) λ at_height.
              and_then (nonempty_number (span_number at_height)) λ (height, after_height).
                and_then (strip_prefix? (codes ";") (strip_left after_height))
                  λ rest. some (width, height)

-- `SIZE_LINE_RE.search`
unfoldable pub search_size : Text → Option (Text × Text)
unfolding match_size
search_size [] = match_size []
search_size (c ∷ s) =
    let later = search_size s in
    elim (match_size (c ∷ s)) [ none ↦ later | some found ↦ some found ]

-- The digits of a decimal and the number of those after its point; none where `float` raises.
unfoldable pub decimal_digits : Bool → ℕ → ℕ → Text → Option (ℕ × ℕ)
unfolding is_digit
decimal_digits after_point digits places [] = some (digits, places)
decimal_digits after_point digits places (c ∷ s) =
    let more =
      decimal_digits after_point (10 * digits + (c - b'0'))
        (if after_point then suc places else places) s in
    let point = decimal_digits true digits places s in
    if is_digit c then more else if c == b'.' && not after_point then point else none

abbrev pub no_digit : Text → Bool
unfolding is_digit
no_digit [] = true
no_digit (c ∷ s) = not (is_digit c) && no_digit s

pub data CheckError : Type 0 where
  bad_number : Text → CheckError
  plan_failed : SramError → CheckError

module _ (F : Floats) where
  open F use {Float, eq}

  -- `float(text)` of digits and points.
  unfoldable pub float_of : Text → Result CheckError Float
  unfolding decimal_digits
  float_of s = elim (if no_digit s then none else decimal_digits false 0 0 s) [
    | none ↦ err (bad_number s)
    | some (digits, places) ↦ ok (decimal F digits places)
  ]

  abbrev pub same_size : Option Float → Float → Bool
  same_size none x = false
  same_size (some y) x = eq x y

  unfoldable pub check_lef : Macro F → Result CheckError (List Problem)
  unfolding search_size
  check_lef m =
      let path = when_bad (not (ends_with (codes ".lef") m.view_path)) (no_view_path m.name) in
      elim (search_size m.size_line) [
        | none ↦ ok (path ++ no_size_line m.name ∷ [])
        | some (width_text, height_text) ↦ do
          width ← float_of width_text
          height ← float_of height_text
          ok (
              path
              ++ when_bad (not (same_size m.width_um width && same_size m.height_um height))
                  (size_disagrees m.name))
      ]

  abbrev pub is_none : Option Float → Bool
  is_none none = true
  is_none (some x) = false

  abbrev pub is_vendor : Macro F → Bool
  is_vendor m = text_eq m.provenance (codes "vendor_datasheet")

  unfoldable pub check_macro : Macro F → Result CheckError (List Problem)
  unfolding has_text
  check_macro m = do
    lef ← (if text_eq m.provenance (codes "lef_measured") then check_lef m else ok [])
    ok (
        when_bad (text_eq m.source_url []) (missing_source m.name)
        ++ when_bad (text_eq m.license []) (missing_license m.name)
        ++ when_bad (text_eq m.size_line []) (missing_quote m.name)
        ++ when_bad
            (not (
              has_text m.provenance
                (codes "lef_measured" ∷ codes "paper_table" ∷ codes "vendor_datasheet" ∷ [])))
            (unknown_provenance m.name)
        ++ when_bad (not (capacity_bytes F m * 8 == m.words * m.word_bits))
            (capacity_mismatch m.name)
        ++ when_bad (m.words == 0 || m.word_bits == 0) (non_positive m.name)
        ++ lef
        ++ when_bad (is_vendor m && is_none m.area_mm2_quoted) (no_quoted_area m.name)
        ++ when_bad (is_vendor m && m.obtainable) (vendor_obtainable m.name))

  -- A plan must cover its target and the bus, with no row to spare.
  unfoldable pub plan_problems : Macro F → ℕ → BankPlan F → List Problem
  plan_problems m target plan =
      when_bad (ltb (realized_bytes F plan) target) (plan_short m.name target)
      ++ when_bad
          (ltb 1 plan.rows
            && leb target ((plan.rows - 1) * plan.macros_per_row * capacity_bytes F m))
          (plan_not_minimal m.name target)
      ++ when_bad (ltb (plan.macros_per_row * m.word_bits) default_bus_bits)
          (bus_not_covered m.name)

  -- Only the ValueError of `plan_bank` is caught.
  unfoldable pub check_plan : Macro F → ℕ → Result CheckError (List Problem)
  check_plan m target = elim (plain_plan F m target default_bus_bits) [
    | err (does_not_tile name bits bus) ↦ ok []
    | err e ↦ err (plan_failed e)
    | ok plan ↦ ok (plan_problems m target plan)
  ]

  -- The problems of every element, in order.
  abbrev pub collect {ℓ} :
      {A : Type ℓ}
      → (A → Result CheckError (List Problem))
      → List A
      → Result CheckError (List Problem)
  collect f [] = ok []
  collect f (x ∷ xs) = f x >>= λ problems. collect f xs >>= λ more. ok (problems ++ more)

  abbrev pub has_duplicate : List Text → Bool
  unfolding has_text
  has_duplicate [] = false
  has_duplicate (k ∷ ks) = has_text k ks || has_duplicate ks

  abbrev pub keys : List (Macro F) → List Text
  keys ms = map (λ (m : Macro F). m.key) ms

  -- `release` is the area that the release file states; the inner none is a file that has none.
  abbrev pub check_release : Option (Option Float) → Float → List Problem
  check_release none area = []
  check_release (some none) area = area_disagrees ∷ []
  check_release (some (some stated)) area = when_bad (not (eq stated area)) area_disagrees

  unfoldable pub check : List (Macro F) → Option (Option Float) → Result CheckError (List Problem)
  unfolding has_text
  check table release = do
    rows ← collect check_macro table
    plans ← collect (λ (m : Macro F). collect (check_plan m) default_targets_bytes) table
    ok (
        rows
        ++ when_bad (has_duplicate (keys table)) duplicate_keys
        ++ when_bad (not (has_text (codes "cf_sram_8192x32") (keys table))) no_reference
        ++ plans
        ++ check_release release (decimal F 150 1))
