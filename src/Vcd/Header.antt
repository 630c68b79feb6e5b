-- ===== src/Vcd/Header.antt =====
-- The header loop of `parse_vcd` ends: its rounds suffice.
use lca.Prelude.{
  ℕ, zero, suc, ◌≤◌, ◌<◌, ◌≡◌, ◌≢◌, List, [], ◌∷◌, none, some, length, arith, Bool-cases,
  Option-cases, Result-cases, inl, inr,
}
use lca.Text.{Text, split}
use lca.Vcd.Parse.{parse_vcd, file_parts}
use lca.Vcd.Sections.{Header, until_end, header_rounds, opens_section, read_section, start_header}

-- What follows an `$end` is shorter than what was searched.
until_end_shorter :
    (tokens fields rest : List Text)
    → until_end tokens ≡ some (fields, rest)
    → length rest < length tokens
unfolding until_end
until_end_shorter [] fields rest h = absurd (cc)
until_end_shorter (token ∷ tokens) fields rest h = elim (Option-cases (until_end tokens)) [
  | inl e ↦ ground arith
  | inr ((f, r), e) ↦ ground (arith, until_end_shorter tokens f r e)
]

-- With as many rounds as tokens the header loop ends, by a result or an error.
header_rounds_total :
    (rounds : ℕ) (tokens : List Text) (h : Header)
    → length tokens ≤ rounds
    → header_rounds rounds tokens h ≢ none
unfolding header_rounds
header_rounds_total rounds [] h le e = cc
header_rounds_total zero (token ∷ tokens) h le e = absurd (omega arith)
header_rounds_total (suc rounds) (token ∷ tokens) h le e = elim (Bool-cases (opens_section token)) [
  | inr plain ↦ header_rounds_total rounds tokens h (omega arith) (ground arith)
  | inl section ↦ elim (Option-cases (until_end tokens)) [
    | inl open_end ↦ ground arith
    | inr ((fields, rest), found) ↦ elim (Result-cases (read_section h token fields)) [
      | inl (h', fine) ↦
          header_rounds_total rounds rest h'
            (omega (arith, until_end_shorter tokens fields rest found)) (ground arith)
      | inr (problem, failed) ↦ ground arith
    ]
  ]
]

-- Parsing ends on every text: it returns a file or raises.
pub parse_vcd_total : (text : Text) → parse_vcd text ≢ none
unfolding parse_vcd
parse_vcd_total text e = elim (Result-cases (file_parts text)) [
  | inl ((header, body), parts) ↦
      header_rounds_total (length (split header)) (split header) start_header (omega arith)
        (ground arith)
  | inr (problem, failed) ↦ ground arith
]
