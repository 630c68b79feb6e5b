-- ===== src/SramArea/OpenRam.antt =====
-- The OpenRAM rows of `MACROS` in tools/sram_area.py.
use lca.Prelude.{true, false, ◌++◌, none, some}
use lca.Text.{codes}
use lca.Floats.{Floats}
use lca.SramArea.Macros.{Macro, decimal, vlsida_repo, vlsida_commit, iscas_2023}

module _ (F : Floats) where
  abbrev pub openram_2kbyte_32x512 : Macro F
  openram_2kbyte_32x512 = record {
    key = codes "openram_2kbyte_32x512";
    name = codes "sky130_sram_2kbyte_1rw1r_32x512_8";
    words = 512;
    word_bits = 32;
    ports = codes "1RW+1R";
    provenance = codes "lef_measured";
    source_url =
        vlsida_repo
        ++ codes "/blob/"
        ++ vlsida_commit
        ++ codes "/sky130_sram_2kbyte_1rw1r_32x512_8/sky130_sram_2kbyte_1rw1r_32x512_8.lef";
    license = codes "Apache-2.0";
    obtainable = true;
    width_um = some (decimal F 6831 1);
    height_um = some (decimal F 41654 2);
    area_mm2_quoted = none;
    view_path = codes "sky130_sram_2kbyte_1rw1r_32x512_8/sky130_sram_2kbyte_1rw1r_32x512_8.lef";
    size_line = codes "SIZE 683.1 BY 416.54 ;";
    silicon =
        codes
          "taped out on the OpenRAM MPW2 test chip; no measured results published in the ISCAS 2023 paper";
    notes =
        codes
          "largest 32-bit-word OpenRAM macro with a distributed view; pins on met4 top and bottom edges, vccd1/vssd1 rails on left/right";
  }

  abbrev pub openram_1kbyte_32x256 : Macro F
  openram_1kbyte_32x256 = record {
    key = codes "openram_1kbyte_32x256";
    name = codes "sky130_sram_1kbyte_1rw1r_32x256_8";
    words = 256;
    word_bits = 32;
    ports = codes "1RW+1R";
    provenance = codes "lef_measured";
    source_url =
        vlsida_repo
        ++ codes "/blob/"
        ++ vlsida_commit
        ++ codes "/sky130_sram_1kbyte_1rw1r_32x256_8/sky130_sram_1kbyte_1rw1r_32x256_8.lef";
    license = codes "Apache-2.0";
    obtainable = true;
    width_um = some (decimal F 47978 2);
    height_um = some (decimal F 3975 1);
    area_mm2_quoted = none;
    view_path = codes "sky130_sram_1kbyte_1rw1r_32x256_8/sky130_sram_1kbyte_1rw1r_32x256_8.lef";
    size_line = codes "SIZE 479.78 BY 397.5 ;";
    silicon =
        codes
          "this configuration (32-bit, 1 kbyte, dual-port) is the macro measured in silicon on OR1 and reported at ISCAS 2023 ("
        ++ iscas_2023
        ++ codes ")";
    notes = codes "the only OpenRAM SKY130 macro with published silicon measurements";
  }

  abbrev pub openram_1kbyte_8x1024 : Macro F
  openram_1kbyte_8x1024 = record {
    key = codes "openram_1kbyte_8x1024";
    name = codes "sky130_sram_1kbyte_1rw1r_8x1024_8";
    words = 1024;
    word_bits = 8;
    ports = codes "1RW+1R";
    provenance = codes "lef_measured";
    source_url =
        vlsida_repo
        ++ codes "/blob/"
        ++ vlsida_commit
        ++ codes "/sky130_sram_1kbyte_1rw1r_8x1024_8/sky130_sram_1kbyte_1rw1r_8x1024_8.lef";
    license = codes "Apache-2.0";
    obtainable = true;
    width_um = some (decimal F 4553 1);
    height_um = some (decimal F 44646 2);
    area_mm2_quoted = none;
    view_path = codes "sky130_sram_1kbyte_1rw1r_8x1024_8/sky130_sram_1kbyte_1rw1r_8x1024_8.lef";
    size_line = codes "SIZE 455.3 BY 446.46 ;";
    silicon =
        codes
          "taped out on the OpenRAM MPW2 test chip; no measured results published in the ISCAS 2023 paper";
    notes = codes "8-bit word: a 32-bit bus needs four macros side by side";
  }

  abbrev pub openram_legacy_1kbyte_32x256 : Macro F
  openram_legacy_1kbyte_32x256 = record {
    key = codes "openram_legacy_1kbyte_32x256";
    name = codes "sram_1rw1r_32_256_8_sky130";
    words = 256;
    word_bits = 32;
    ports = codes "1RW+1R";
    provenance = codes "lef_measured";
    source_url =
        vlsida_repo
        ++ codes "/blob/"
        ++ vlsida_commit
        ++ codes "/sram_1rw1r_32_256_8_sky130/sram_1rw1r_32_256_8_sky130.lef";
    license = codes "Apache-2.0";
    obtainable = true;
    width_um = some (decimal F 37648 2);
    height_um = some (decimal F 446235 3);
    area_mm2_quoted = none;
    view_path = codes "sram_1rw1r_32_256_8_sky130/sram_1rw1r_32_256_8_sky130.lef";
    size_line = codes "SIZE 376.48 BY 446.235 ;";
    silicon = codes "none published";
    notes =
        codes
          "older naming/flow kept in the tree; ships multi-corner .lib files (FF/SS/TT, 1.7-1.9 V, 0-100 C) that the current macros lack, but its 24.8 MB detailed LEF is not an abstract view";
  }

  abbrev pub openram_4kbyte_32x1024 : Macro F
  openram_4kbyte_32x1024 = record {
    key = codes "openram_4kbyte_32x1024";
    name = codes "sky130_sram_4kbyte_1rw1r_32x1024_8";
    words = 1024;
    word_bits = 32;
    ports = codes "1RW+1R";
    provenance = codes "paper_table";
    source_url = iscas_2023;
    license = codes "Apache-2.0 (generator and configs; no view distributed)";
    obtainable = false;
    width_um = some (decimal F 6939 1);
    height_um = some (decimal F 6688 1);
    area_mm2_quoted = none;
    view_path = codes "(no .lef or .gds distributed in any known tree)";
    size_line = codes "ISCAS 2023 Table I: Width 693.9 um, Height 668.8 um";
    silicon = codes "taped out on MPW2; no measured results published";
    notes =
        codes
          "config exists at configs/sky130_sram_4kbyte_1rw1r_32x1024_8.py but the macro must be regenerated with OpenRAM to be usable";
  }

  abbrev pub openram_8kbyte_32x2048 : Macro F
  openram_8kbyte_32x2048 = record {
    key = codes "openram_8kbyte_32x2048";
    name = codes "sky130_sram_8kbyte_1rw1r_32x2048_8";
    words = 2048;
    word_bits = 32;
    ports = codes "1RW+1R";
    provenance = codes "paper_table";
    source_url = iscas_2023;
    license = codes "Apache-2.0 (generator and configs; no view distributed)";
    obtainable = false;
    width_um = some (decimal F 10938 1);
    height_um = some (decimal F 7205 1);
    area_mm2_quoted = none;
    view_path = codes "(no .lef or .gds distributed in any known tree)";
    size_line = codes "ISCAS 2023 Table I: Width 1093.8 um, Height 720.5 um";
    silicon = codes "taped out on MPW2; no measured results published";
    notes =
        codes
          "the 8 kB config is commented out in the macro repository Makefile; regeneration required";
  }
