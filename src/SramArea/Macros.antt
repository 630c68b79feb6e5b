-- ===== src/SramArea/Macros.antt =====
-- The SRAM macros that tools/sram_area.py knows, with where their geometry comes from.
use lca.Prelude.{
  ℕ, ◌*◌, ◌/◌, ◌^◌, ◌==◌, Bool, Option, none, some, pos, Result, ok, err, ◌>>=◌, ◌>>◌, raise_if,
}
use lca.Text.{Text, codes}
use lca.Floats.{Floats}

-- `no_area` is the AssertionError of `area_um2`, `no_columns` that of `_add_envelope`.
pub data SramError : Type 0 where
  no_area no_columns zero_division : SramError
  does_not_tile : Text → ℕ → ℕ → SramError

abbrev pub cf_project_price_usd : ℕ
cf_project_price_usd = 2500

abbrev pub vlsida_repo : Text
vlsida_repo = codes "https://github.com/VLSIDA/sky130_sram_macros"

abbrev pub vlsida_commit : Text
vlsida_commit = codes "965df150c754fe2b3f93a0bd1f9883eb114279b2"

abbrev pub sram22_repo : Text
sram22_repo = codes "https://github.com/rahulk29/sram22_sky130_macros"

abbrev pub sram22_commit : Text
sram22_commit = codes "75cbe961e18ee00d5a6c73fa455505f0bcdf4c05"

abbrev pub iscas_2023 : Text
iscas_2023 = codes "https://ieeexplore.ieee.org/document/10181379/"

abbrev pub cf_sram_page : Text
cf_sram_page = codes "https://chipfoundry.io/commercial-sram"

abbrev pub cf_sram_macro_page : Text
cf_sram_macro_page = codes "https://chipfoundry.io/commercial-sram-macro"

module _ (F : Floats) where
  open F use {Float, of_int, mul, div}

  -- A decimal literal: the float nearest to the quotient.
  abbrev pub decimal : ℕ → ℕ → Float
  decimal digits places = div (of_int (pos digits)) (of_int (pos (10 ^ places)))

  pub record Macro : Type 0 where
    pub key : Text
    pub name : Text
    pub words : ℕ
    pub word_bits : ℕ
    pub ports : Text
    pub provenance : Text
    pub source_url : Text
    pub license : Text
    pub obtainable : Bool
    pub width_um : Option Float
    pub height_um : Option Float
    pub area_mm2_quoted : Option Float
    pub view_path : Text
    pub size_line : Text
    pub silicon : Text
    pub notes : Text

  abbrev pub capacity_bytes : Macro → ℕ
  capacity_bytes m = m.words * m.word_bits / 8

  abbrev pub outline : Macro → Option (Float × Float)
  outline m = elim m.width_um [
    | none ↦ none
    | some w ↦ elim m.height_um [ none ↦ none | some h ↦ some (w, h) ]
  ]

  unfoldable pub area_um2 : Macro → Result SramError Float
  area_um2 m = elim (outline m) [
    | some (w, h) ↦ ok (mul w h)
    | none ↦ elim m.area_mm2_quoted [
      | none ↦ err no_area
      | some a ↦ ok (mul a (of_int (pos 1_000_000)))
    ]
  ]

  unfoldable pub area_mm2 : Macro → Result SramError Float
  unfolding area_um2
  area_mm2 m = do area ← area_um2 m; ok (div area (of_int (pos 1_000_000)))

  unfoldable pub mm2_per_kib : Macro → Result SramError Float
  unfolding area_mm2
  mm2_per_kib m = do
    area ← area_mm2 m
    raise_if (capacity_bytes m == 0) zero_division
    ok (div area (div (of_int (pos (capacity_bytes m))) (of_int (pos 1024))))
