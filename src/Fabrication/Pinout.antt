-- ===== src/Fabrication/Pinout.antt =====
-- tools/validate_fabrication.py: the checks of the package and of its pins.
use lca.Prelude.{
  ℕ, ◌+◌, ◌-◌, ◌*◌, ◌==◌, leb, ◌&&◌, ◌||◌, Bool, true, false, if◌then◌else◌, List, [], ◌∷◌, ◌++◌,
  map, Option, none, some, ℤ, pos, Result, ok, err, ◌>>=◌, range_from,
}
use lca.Floats.{Floats}
use lca.Text.{Text, codes, is_digit, int_of, strip_prefix?, starts_with}
use lca.Json.{
  Json, null, bool, int, float, string, array, Fields, get, items_of, int_of_bool, json_eq,
}
use lca.Fabrication.Access.{
  Crash, type_error, key_error, value_error, Problem, expect, gather, value_at, dict_at, is_text,
  is_number, len_of, duplicate_values, expect_unique, same_set, all_in, texts, values_of, decimal,
  indexed,
}

-- The pins "1" to "64" and the paddle.
abbrev pub expected_pins : List Text
expected_pins = map decimal (range_from 1 64) ++ codes "EP" ∷ []

abbrev pub expected_gpio_names : List Text
expected_gpio_names = map (indexed "gpio") (range_from 0 44)

module _ (F : Floats) where
  open F use {Float, of_int, div}

  unfoldable pub check_package : Fields Float → Result Crash (List (Problem F))
  unfolding json_eq
  check_package pack = do
    meta ← dict_at F (codes "package") pack
    errata ← elim (get (codes "source_errata") meta) [ none ↦ ok 0 | some v ↦ len_of F v ]
    let nine = float (of_int (pos 9)) in
        let half = float (div (of_int (pos 1)) (of_int (pos 2))) in
        ok (
          gather F (
            expect F (is_text F (value_at F (codes "family") meta) (codes "QFN"))
              "package family must be QFN"
            ∷ expect F (is_number F (value_at F (codes "pin_count") meta) 64)
                "package pin count must be 64"
            ∷ expect F
                (json_eq F (value_at F (codes "body_mm") meta)
                  (array (items_of (nine ∷ nine ∷ []))))
                "package body must be recorded as 9 mm x 9 mm"
            ∷ expect F (json_eq F (value_at F (codes "pitch_mm") meta) half)
                "package pitch must be 0.5 mm"
            ∷ expect F (is_text F (value_at F (codes "exposed_paddle") meta) (codes "VSS"))
                "exposed paddle must be VSS"
            ∷ expect F (leb 1 errata) "datasheet pin conflict must remain recorded"
            ∷ []))

  -- The keys of `pin_by_name`, some more than once.
  abbrev pub gpio_names : List (Json Float) → List (Json Float)
  unfolding starts_with
  gpio_names [] = []
  gpio_names (string name ∷ names) =
      let later = gpio_names names in
      if starts_with (codes "gpio[") name then string name ∷ later else later
  gpio_names (v ∷ names) = gpio_names names

  abbrev pub has_pin : List (Fields Float) → Text → Text → Bool
  unfolding json_eq
  has_pin [] number name = false
  has_pin (pin ∷ pins) number name =
      is_text F (value_at F (codes "pin") pin) number
        && is_text F (value_at F (codes "name") pin) name
      || has_pin pins number name

  unfoldable pub check_pins : List (Fields Float) → Result Crash (List (Problem F))
  unfolding json_eq duplicate_values all_in starts_with
  check_pins pinout = do
    covered ← same_set F (values_of F (codes "pin") pinout) (texts F expected_pins)
    repeated ←
        expect_unique F (values_of F (codes "pin") pinout)
          "qfn_pinout contains duplicate physical pins"
    mapped ←
        same_set F (gpio_names (values_of F (codes "name") pinout)) (texts F expected_gpio_names)
    ok (
        gather F (
          expect F (covered) "qfn_pinout must cover pins 1-64 and EP exactly"
          ∷ repeated
          ∷ expect F (mapped) "QFN pinout must map every GPIO0-43 exactly once"
          ∷ expect F (has_pin pinout (codes "21") (codes "resetb")) "QFN pin 21 must be resetb"
          ∷ expect F (has_pin pinout (codes "38") (codes "vssa1"))
              "Figure-2 correction requires pin 38=vssa1"
          ∷ expect F (has_pin pinout (codes "31") (codes "gpio[0]"))
              "Figure-2 correction requires pin 31=gpio[0]"
          ∷ []))

  -- `int(v)`, but for a float, which crashes here.
  abbrev pub int_value : Json Float → Result Crash ℤ
  unfolding int_of
  int_value (bool b) = ok (int_of_bool b)
  int_value (int n) = ok n
  int_value (string s) = elim (int_of s) [ none ↦ err value_error | some n ↦ ok n ]
  int_value v = err type_error

  -- The digits of a name that `gpio\[[0-9]+\]` matches as a whole, as a number.
  abbrev pub digits_before_end : ℕ → Bool → Text → Option ℕ
  unfolding is_digit
  digits_before_end n some_digit [] = none
  digits_before_end n some_digit (c ∷ s) =
      let more = digits_before_end (n * 10 + (c - b'0')) true s in
      if is_digit c
      then more
      else if some_digit && c == b']'
      then elim s [ [] ↦ some n | d ∷ rest ↦ none ]
      else none

  abbrev pub gpio_of : Json Float → Option ℕ
  unfolding strip_prefix? is_digit
  gpio_of (string name) = elim (strip_prefix? (codes "gpio[") name) [
    | none ↦ none
    | some rest ↦ digits_before_end 0 false rest
  ]
  gpio_of v = none

  -- `physical_pin_by_gpio`, its entries in order; a later entry stands for an earlier one.
  unfoldable pub physical_pins : List (Fields Float) → Result Crash (List (ℕ × ℤ))
  unfolding int_of strip_prefix? is_digit
  physical_pins [] = ok []
  physical_pins (pin ∷ pins) = do
    later ← physical_pins pins
    elim (gpio_of (value_at F (codes "name") pin)) [
      | none ↦ ok later
      | some gpio ↦ elim (get (codes "pin") pin) [
        | none ↦ err key_error
        | some number ↦ int_value number >>= λ n. ok ((gpio, n) ∷ later)
      ]
    ]

  -- `physical_pin_by_gpio.get(gpio)`
  unfoldable pub physical_pin : List (ℕ × ℤ) → Json Float → Json Float
  unfolding json_eq
  physical_pin [] gpio = null
  physical_pin ((g, n) ∷ pins) gpio = elim (physical_pin pins gpio) [
    | null ↦ if is_number F gpio g then int n else null
    | v ↦ v
  ]
