-- ===== src/Vcd/Sections.antt =====
-- `parse_vcd` of tools/power_trace_from_vcd.py: the sections of the header.
use lca.Prelude.{
  ℕ, zero, suc, ◌||◌, Bool, true, false, List, [], ◌∷◌, ◌++◌, Option, none, some, if◌then◌else◌,
  Result, ok, err,
}
use lca.Text.{Text, codes, text_eq, join, int_of}
use lca.Vcd.Defs.{VcdError, VcdVar, strip_bit_range, no_end, malformed_var, non_integer_width}

-- What the loop over the header's tokens keeps.
pub record Header : Type 0 where
  pub date : Text
  pub version : Text
  pub timescale_text : Text
  pub variables : List VcdVar
  pub scope : List Text

abbrev pub start_header : Header
start_header = record { date = []; version = []; timescale_text = []; variables = []; scope = [] }

-- The tokens before the next `$end`, and those after it; none where there is no `$end`.
unfoldable pub until_end : List Text → Option (List Text × List Text)
until_end [] = none
until_end (token ∷ tokens) =
    let later = until_end tokens in
    if text_eq token (codes "$end")
    then some ([], tokens)
    else elim later [ none ↦ none | some (fields, rest) ↦ some (token ∷ fields, rest) ]

abbrev dotted : Text
dotted = codes "."

unfoldable pub full_path : List Text → Text → Text
full_path [] name = name
full_path (s ∷ ss) name = join dotted ((s ∷ ss) ++ name ∷ [])

unfoldable pub declare_var : Header → List Text → Result VcdError Header
unfolding full_path strip_bit_range int_of join
declare_var h (var_type ∷ width_text ∷ ident ∷ part ∷ parts) =
    let name = strip_bit_range (join (codes " ") (part ∷ parts)) in
    elim (int_of width_text) [
      | none ↦ err (non_integer_width width_text)
      | some width ↦ ok (record h {
        variables =
            h.variables
            ++ record {
              ident = ident;
              path = full_path h.scope name;
              name = name;
              width = width;
              var_type = var_type;
            }
              ∷ [];
      })
    ]
declare_var h fields = err (malformed_var fields)

abbrev pub enter_scope : Header → List Text → Header
enter_scope h (kind ∷ name ∷ rest) = record h { scope = h.scope ++ name ∷ [] }
enter_scope h _ = h

abbrev without_last : List Text → List Text
without_last [] = []
without_last (x ∷ []) = []
without_last (x ∷ y ∷ xs) = x ∷ without_last (y ∷ xs)

abbrev pub record_payload : Header → Text → List Text → Header
record_payload h token fields =
    let payload = join (codes " ") fields in
    if text_eq token (codes "$date")
    then record h { date = payload }
    else if text_eq token (codes "$version")
    then record h { version = payload }
    else if text_eq token (codes "$timescale")
    then record h { timescale_text = payload }
    else h

-- The tokens that open a section which ends at `$end`.
unfoldable pub opens_section : Text → Bool
opens_section token =
    text_eq token (codes "$var")
    || text_eq token (codes "$scope")
    || text_eq token (codes "$upscope")
    || (text_eq token (codes "$date") || text_eq token (codes "$version"))
    || (text_eq token (codes "$timescale") || text_eq token (codes "$comment"))

-- What a section does, given the tokens between its keyword and `$end`.
unfoldable pub read_section : Header → Text → List Text → Result VcdError Header
unfolding declare_var join
read_section h token fields =
    if text_eq token (codes "$var")
    then declare_var h fields
    else if text_eq token (codes "$scope")
    then ok (enter_scope h fields)
    else if text_eq token (codes "$upscope")
    then ok (record h { scope = without_last h.scope })
    else ok (record_payload h token fields)

-- The `while index < len(tokens)` loop: each round drops at least one token, and `none` says that
-- the rounds ran out.
unfoldable pub header_rounds : ℕ → List Text → Header → Option (Result VcdError Header)
header_rounds rounds [] h = some (ok h)
header_rounds zero (token ∷ tokens) h = none
header_rounds (suc rounds) (token ∷ tokens) h = elim (opens_section token) [
  | false ↦ header_rounds rounds tokens h
  | true ↦ elim (until_end tokens) [
    | none ↦ some (err no_end)
    | some (fields, rest) ↦ elim (read_section h token fields) [
      | err e ↦ some (err e)
      | ok h' ↦ header_rounds rounds rest h'
    ]
  ]
]
