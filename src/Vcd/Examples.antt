-- ===== src/Vcd/Examples.antt =====
-- Tests of the dump parser, and the theorems at a small dump.
use lca.Prelude.{◌++◌, pos, ◌≡◌, ◌≢◌, refl, [], ◌∷◌, some, none, ok}
use lca.Text.{
  Text, codes, find?, strip_prefix?, join, split, split_from, is_space, int_of, int_digits,
  is_digit, strip, strip_left, splitlines, lines_from, is_line_end, lower, without_char, has_char,
  ends_with, starts_with,
}
use lca.Dict.{get_or, lookup, insert, set_default}
use lca.Vcd.Defs.{
  strip_bit_range, before_range, closes_range, normalise_vector, parse_timescale, span_digits,
  timescale_unit,
}
use lca.Vcd.Parse.{
  VcdFile, parse_vcd, file_parts, read_body, read_lines, read_line, read_record, time_stamp,
  scalar_change, widths, widths_from,
}
use lca.Vcd.Sections.{header_rounds, opens_section, read_section, declare_var, until_end, full_path}
use lca.Vcd.Header.{parse_vcd_total}
use lca.Vcd.WellFormed.{IsWellFormed, parse_vcd-IsWellFormed}

abbrev small_dump : Text
small_dump =
    codes
      "$timescale 1 ns $end $scope module top $end $var wire 1 ! clk $end $upscope $end $enddefinitions $end "
    ++ 10 ∷ codes "#0"
    ++ 10 ∷ codes "0!"
    ++ 10 ∷ codes "#5"
    ++ 10 ∷ codes "1!"

abbrev small_file : VcdFile
small_file = record {
  date = [];
  version = [];
  timescale_text = codes "1 ns";
  timescale_seconds = record { numerator = 1; denominator = 1_000_000_000 };
  variables =
      record {
        ident = codes "!";
        path = codes "top.clk";
        name = codes "clk";
        width = pos 1;
        var_type = codes "wire";
      }
      ∷ [];
  time_blocks =
      record { time = pos 0; changes = (codes "!", codes "0") ∷ [] }
      ∷ record { time = pos 5; changes = (codes "!", codes "1") ∷ [] }
      ∷ [];
}

parse_small : parse_vcd small_dump ≡ some (ok small_file)
unfolding parse_vcd file_parts find? strip_prefix? header_rounds opens_section read_section
    declare_var until_end full_path join split split_from is_space int_of int_digits is_digit strip
    strip_left strip_bit_range before_range closes_range read_body read_lines read_line read_record
    splitlines lines_from is_line_end time_stamp scalar_change normalise_vector lower get_or lookup
    insert set_default widths widths_from parse_timescale span_digits timescale_unit without_char
    has_char ends_with starts_with
parse_small = refl

parse_vcd_total_example : parse_vcd small_dump ≢ none
parse_vcd_total_example = parse_vcd_total small_dump

parse_vcd-IsWellFormed_example : IsWellFormed small_file
parse_vcd-IsWellFormed_example = parse_vcd-IsWellFormed small_dump small_file parse_small
