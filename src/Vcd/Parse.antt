-- ===== src/Vcd/Parse.antt =====
-- `parse_vcd` of tools/power_trace_from_vcd.py, on the decoded text of the file.
use lca.Prelude.{
  ℕ, ◌==◌, ◌&&◌, not, Bool, true, false, List, [], ◌∷◌, ◌++◌, Option, none, some, if◌then◌else◌, ℤ,
  pos, ltb_ℤ, ◌==ℤ◌, Result, ok, err, ◌>>=◌, ◌>>◌, raise_if, length,
}
use lca.Text.{
  Text, codes, text_eq, strip, split, splitlines, int_of, lower, has_char, ends_with, find?,
}
use lca.Dict.{Dict, lookup, insert, set_default, get_or}
use lca.Vcd.Defs.{
  VcdError, VcdVar, Fraction, parse_timescale, normalise_vector, no_enddefinitions,
  unterminated_enddefinitions, no_signals, no_timescale, not_monotonic, malformed_time_stamp,
  malformed_vector, malformed_real, malformed_string, scalar_without_identifier,
  unrecognised_record,
}
use lca.Vcd.Sections.{Header, header_rounds, start_header}

pub record TimeBlock : Type 0 where
  pub time : ℤ
  pub changes : Dict Text

pub record VcdFile : Type 0 where
  pub date : Text
  pub version : Text
  pub timescale_text : Text
  pub timescale_seconds : Fraction
  pub variables : List VcdVar
  pub time_blocks : List TimeBlock

-- The first declaration of an identifier gives its width.
unfoldable pub widths_from : Dict ℤ → List VcdVar → Dict ℤ
widths_from widths [] = widths
widths_from widths (var ∷ variables) =
    widths_from (set_default var.ident var.width widths) variables

unfoldable pub widths : List VcdVar → Dict ℤ
unfolding widths_from
widths variables = widths_from [] variables

-- What the loop over the body's lines keeps: the blocks that are closed, and the last block.
pub record Body : Type 0 where
  pub closed : List TimeBlock
  pub time : ℤ
  pub changes : Dict Text
  pub in_comment : Bool

abbrev pub start_body : Body
start_body = record { closed = []; time = pos 0; changes = []; in_comment = false }

abbrev pub blocks : Body → List TimeBlock
blocks b = b.closed ++ record { time = b.time; changes = b.changes } ∷ []

abbrev change : Text → Text → Body → Body
change ident value b = record b { changes = insert ident value b.changes }

unfoldable pub time_stamp : Body → Text → Text → Result VcdError Body
unfolding int_of
time_stamp b line digits = elim (int_of digits) [
  | none ↦ err (malformed_time_stamp line)
  | some stamp ↦
      if ltb_ℤ stamp b.time
      then err not_monotonic
      else if not (stamp ==ℤ b.time)
      then ok (record b { closed = blocks b; time = stamp; changes = [] })
      else ok b
]

-- The first and the last of at least two parts.
abbrev first_last : List Text → Option (Text × Text)
first_last [] = none
first_last (x ∷ []) = none
first_last (x ∷ y ∷ []) = some (x, y)
first_last (x ∷ y ∷ z ∷ zs) = elim (first_last (y ∷ z ∷ zs)) [
  | none ↦ none
  | some (y', l) ↦ some (x, l)
]

abbrev without_head : Text → Text
without_head [] = []
without_head (c ∷ s) = s

unfoldable pub vector_change : Dict ℤ → Body → Text → Result VcdError Body
unfolding split normalise_vector
vector_change ws b line = elim (first_last (split line)) [
  | none ↦ err (malformed_vector line)
  | some (value, ident) ↦ elim (lookup ident ws) [
    | none ↦ ok b
    | some width ↦ ok (change ident (normalise_vector (without_head value) width) b)
  ]
]

unfoldable pub real_change : Body → Text → Result VcdError Body
unfolding split lower
real_change b line = elim (first_last (split line)) [
  | none ↦ err (malformed_real line)
  | some (value, ident) ↦ ok (change ident (lower value) b)
]

unfoldable pub string_change : Body → Text → Result VcdError Body
unfolding split
string_change b line = elim (first_last (split line)) [
  | none ↦ err (malformed_string line)
  | some (value, ident) ↦ ok (change ident value b)
]

unfoldable pub scalar_change : Dict ℤ → Body → ℕ → Text → Text → Result VcdError Body
unfolding strip normalise_vector
scalar_change ws b head tail line = elim (strip tail) [
  | [] ↦ err (scalar_without_identifier line)
  | c ∷ s ↦ ok (change (c ∷ s) (normalise_vector (head ∷ []) (get_or (c ∷ s) (pos 1) ws)) b)
]

-- A line that starts with `$` outside a comment.
abbrev keyword_line : Body → Text → Body
keyword_line b line = elim (split line) [
  | [] ↦ b
  | keyword ∷ words ↦
      if text_eq keyword (codes "$comment") && not (ends_with (codes "$end") line)
      then record b { in_comment = true }
      else b
]

-- A stripped line that is not empty and stands outside a comment, by its first character.
unfoldable pub read_record : Dict ℤ → Body → ℕ → Text → Result VcdError Body
read_record ws b head tail =
    let line = head ∷ tail in
    if head == b'$'
    then ok (keyword_line b line)
    else if head == b'#'
    then time_stamp b line tail
    else if has_char head (codes "bB")
    then vector_change ws b line
    else if has_char head (codes "rR")
    then real_change b line
    else if has_char head (codes "sS")
    then string_change b line
    else if has_char head (codes "01xXzZuUwWlLhH-")
    then scalar_change ws b head tail line
    else err (unrecognised_record line)

unfoldable pub read_line : Dict ℤ → Body → Text → Result VcdError Body
unfolding strip
read_line ws b raw_line = elim (strip raw_line) [
  | [] ↦ ok b
  | head ∷ tail ↦
      if b.in_comment
      then (if ends_with (codes "$end") (head ∷ tail)
          then ok (record b { in_comment = false })
          else ok b)
      else read_record ws b head tail
]

unfoldable pub read_lines : Dict ℤ → Body → List Text → Result VcdError Body
read_lines ws b [] = ok b
read_lines ws b (line ∷ lines) = read_line ws b line >>= λ b'. read_lines ws b' lines

-- The parts of the file: what stands before `$enddefinitions`, and what follows its `$end`.
unfoldable pub file_parts : Text → Result VcdError (Text × Text)
unfolding find?
file_parts text = elim (find? (codes "$enddefinitions") text) [
  | none ↦ err no_enddefinitions
  | some (header, after) ↦ elim (find? (codes "$end") after) [
    | none ↦ err unterminated_enddefinitions
    | some (skipped, body) ↦ ok (header, body)
  ]
]

-- The checks on the header, and the loop over the body's lines.
unfoldable pub read_body : Header → Text → Result VcdError VcdFile
read_body h body = do
  raise_if (elim h.variables [ [] ↦ true | v ∷ vs ↦ false ]) no_signals
  raise_if (elim h.timescale_text [ [] ↦ true | c ∷ s ↦ false ]) no_timescale
  b ← read_lines (widths h.variables) start_body (splitlines body)
  seconds ← parse_timescale h.timescale_text
  ok (record {
    date = h.date;
    version = h.version;
    timescale_text = h.timescale_text;
    timescale_seconds = seconds;
    variables = h.variables;
    time_blocks = blocks b;
  })

-- `none` says that the header's rounds ran out.
unfoldable pub parse_vcd : Text → Option (Result VcdError VcdFile)
unfolding file_parts split
parse_vcd text = elim (file_parts text) [
  | err e ↦ some (err e)
  | ok (header, body) ↦ elim (header_rounds (length (split header)) (split header) start_header) [
    | none ↦ none
    | some (err e) ↦ some (err e)
    | some (ok h) ↦ some (read_body h body)
  ]
]
