-- ===== src/SramArea/Others.antt =====
-- The SRAM22 and ChipFoundry rows of `MACROS` in tools/sram_area.py, and the table.
use lca.Prelude.{true, false, [], ◌∷◌, ◌++◌, none, some, List}
use lca.Text.{codes}
use lca.Floats.{Floats}
use lca.SramArea.Macros.{
  Macro, decimal, sram22_repo, sram22_commit, cf_sram_page, cf_sram_macro_page,
}
use lca.SramArea.OpenRam.{
  openram_2kbyte_32x512, openram_1kbyte_32x256, openram_1kbyte_8x1024, openram_legacy_1kbyte_32x256,
  openram_4kbyte_32x1024, openram_8kbyte_32x2048,
}

module _ (F : Floats) where
  abbrev pub sram22_2048x32 : Macro F
  sram22_2048x32 = record {
    key = codes "sram22_2048x32";
    name = codes "sram22_2048x32m8w8";
    words = 2048;
    word_bits = 32;
    ports = codes "1RW";
    provenance = codes "lef_measured";
    source_url =
        sram22_repo
        ++ codes "/blob/"
        ++ sram22_commit
        ++ codes "/sram22_2048x32m8w8/sram22_2048x32m8w8.lef";
    license = codes "BSD-3-Clause";
    obtainable = true;
    width_um = some (decimal F 674480 3);
    height_um = some (decimal F 781920 3);
    area_mm2_quoted = none;
    view_path = codes "sram22_2048x32m8w8/sram22_2048x32m8w8.lef";
    size_line = codes "SIZE 674.480 BY 781.920 ;";
    silicon =
        codes
          "repository README states this macro was taped out via Cadence's shuttle program and 'behaved correctly in silicon measurements when tested at VDD=1.8V and at a clock frequency of 25 MHz'; no paper, no per-die data, no characterization released";
    notes =
        codes
          "single-port only: a 1RW+1R access pattern needs arbitration in the wrapper; upstream says 'use at your own risk'";
  }

  abbrev pub sram22_1024x32 : Macro F
  sram22_1024x32 = record {
    key = codes "sram22_1024x32";
    name = codes "sram22_1024x32m8w8";
    words = 1024;
    word_bits = 32;
    ports = codes "1RW";
    provenance = codes "lef_measured";
    source_url =
        sram22_repo
        ++ codes "/blob/"
        ++ sram22_commit
        ++ codes "/sram22_1024x32m8w8/sram22_1024x32m8w8.lef";
    license = codes "BSD-3-Clause";
    obtainable = true;
    width_um = some (decimal F 764240 3);
    height_um = some (decimal F 460280 3);
    area_mm2_quoted = none;
    view_path = codes "sram22_1024x32m8w8/sram22_1024x32m8w8.lef";
    size_line = codes "SIZE 764.240 BY 460.280 ;";
    silicon = codes "listed as taped out and correct at 1.8 V / 25 MHz in the repository README";
    notes = codes "single-port";
  }

  abbrev pub sram22_512x32 : Macro F
  sram22_512x32 = record {
    key = codes "sram22_512x32";
    name = codes "sram22_512x32m4w8";
    words = 512;
    word_bits = 32;
    ports = codes "1RW";
    provenance = codes "lef_measured";
    source_url =
        sram22_repo
        ++ codes "/blob/"
        ++ sram22_commit
        ++ codes "/sram22_512x32m4w8/sram22_512x32m4w8.lef";
    license = codes "BSD-3-Clause";
    obtainable = true;
    width_um = some (decimal F 443280 3);
    height_um = some (decimal F 448720 3);
    area_mm2_quoted = none;
    view_path = codes "sram22_512x32m4w8/sram22_512x32m4w8.lef";
    size_line = codes "SIZE 443.280 BY 448.720 ;";
    silicon = codes "listed as taped out and correct at 1.8 V / 25 MHz in the repository README";
    notes = codes "single-port; direct size-for-size comparison against the OpenRAM 2 kB macro";
  }

  abbrev pub cf_sram_8192x32 : Macro F
  cf_sram_8192x32 = record {
    key = codes "cf_sram_8192x32";
    name = codes "CF_SRAM_8192x32";
    words = 8192;
    word_bits = 32;
    ports = codes "Wishbone (port count not published)";
    provenance = codes "vendor_datasheet";
    source_url = cf_sram_page;
    license = codes "commercial, $2500 per project";
    obtainable = false;
    width_um = none;
    height_um = none;
    area_mm2_quoted = some (decimal F 134 2);
    view_path = codes "(views delivered through IPM after purchase; not inspected)";
    size_line =
        cf_sram_page
        ++ codes " (retrieved 2026-08-15): 32KB, 1.34 mm2, Wishbone Bus, $2500 per project";
    silicon = codes "not stated on the product page";
    notes =
        codes
          "the Rev-A baseline in fabrication/rev_a_release.json; no dimensions, aspect ratio, port list, timing, or license text is public, so nothing here is independently verifiable";
  }

  abbrev pub cf_sram_4096x32 : Macro F
  cf_sram_4096x32 = record {
    key = codes "cf_sram_4096x32";
    name = codes "CF_SRAM_4096x32";
    words = 4096;
    word_bits = 32;
    ports = codes "Wishbone (port count not published)";
    provenance = codes "vendor_datasheet";
    source_url = cf_sram_page;
    license = codes "commercial, $2500 per project";
    obtainable = false;
    width_um = none;
    height_um = none;
    area_mm2_quoted = some (decimal F 67 2);
    view_path = codes "(views delivered through IPM after purchase; not inspected)";
    size_line = cf_sram_page ++ codes " (retrieved 2026-08-15): 16KB, 0.67 mm2";
    silicon = codes "not stated on the product page";
    notes = [];
  }

  abbrev pub cf_sram_1024x32 : Macro F
  cf_sram_1024x32 = record {
    key = codes "cf_sram_1024x32";
    name = codes "CF_SRAM_1024x32";
    words = 1024;
    word_bits = 32;
    ports = codes "Wishbone (port count not published)";
    provenance = codes "vendor_datasheet";
    source_url = cf_sram_page;
    license = codes "commercial, $2500 per project";
    obtainable = false;
    width_um = none;
    height_um = none;
    area_mm2_quoted = some (decimal F 165 3);
    view_path = codes "(views delivered through IPM after purchase; not inspected)";
    size_line = cf_sram_page ++ codes " (retrieved 2026-08-15): 4KB, 0.165 mm2";
    silicon = codes "not stated on the product page";
    notes =
        codes "vendor pages disagree: the catalog says 0.165 mm2 while "
        ++ cf_sram_macro_page
        ++ codes
            " gives 387.870 um x 303.315 um = 0.1176 mm2 for SRAM_1024x32. Both are vendor figures; neither was measured here";
  }

  abbrev pub macros : List (Macro F)
  macros =
      openram_2kbyte_32x512 F
      ∷ openram_1kbyte_32x256 F
      ∷ openram_1kbyte_8x1024 F
      ∷ openram_legacy_1kbyte_32x256 F
      ∷ openram_4kbyte_32x1024 F
      ∷ openram_8kbyte_32x2048 F
      ∷ sram22_2048x32
      ∷ sram22_1024x32
      ∷ sram22_512x32
      ∷ cf_sram_8192x32
      ∷ cf_sram_4096x32
      ∷ cf_sram_1024x32
      ∷ []
