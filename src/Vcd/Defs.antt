-- ===== src/Vcd/Defs.antt =====
-- tools/power_trace_from_vcd.py: declarations, change blocks, and the small parsers.
use lca.Prelude.{
  ℕ, zero, suc, ◌-◌, ◌^◌, ◌==◌, ◌&&◌, ◌||◌, not, Bool, true, false, List, [], ◌∷◌, ◌++◌, Option,
  none, some, if◌then◌else◌, ℤ, pos, negsuc, pos_part, ltb_ℤ, Result, ok, err, length, replicate,
  drop,
}
use lca.Text.{Text, codes, text_eq, strip, strip_left, without_char, is_digit, int_of, lower}

pub data VcdError : Type 0 where
  no_enddefinitions unterminated_enddefinitions no_end no_signals no_timescale not_monotonic
        no_tracked_signals :
      VcdError
  malformed_var : List Text → VcdError
  non_integer_width malformed_time_stamp malformed_vector malformed_real malformed_string :
      Text → VcdError
  scalar_without_identifier unrecognised_record unsupported_timescale unsupported_magnitude :
      Text → VcdError
  multiple_identifiers signal_not_found ambiguous_signal : Text → VcdError
  sub_nanosecond clock_required : VcdError
  too_few_edges : ℕ → VcdError

-- `Fraction`, not in lowest terms; only whole values of it are read.
pub record Fraction : Type 0 where
  pub numerator : ℕ
  pub denominator : ℕ

pub record VcdVar : Type 0 where
  pub ident : Text
  pub path : Text
  pub name : Text
  pub width : ℤ
  pub var_type : Text

abbrev pub non_toggling_var_types : List Text
non_toggling_var_types =
    codes "parameter" ∷ codes "real" ∷ codes "realtime" ∷ codes "event" ∷ codes "string" ∷ []

-- `text in texts`
unfoldable pub has_text : Text → List Text → Bool
has_text t [] = false
has_text t (x ∷ xs) = text_eq t x || has_text t xs

unfoldable pub togglable : VcdVar → Bool
unfolding has_text
togglable var = not (has_text var.var_type non_toggling_var_types)

-- The pattern of a bit range at the end of a name, matched from here: white space, a bracketed
-- run, white space.
abbrev only_spaces : Text → Bool
unfolding strip_left
only_spaces s = elim (strip_left s) [ [] ↦ true | c ∷ rest ↦ false ]

unfoldable pub closes_range : Text → Bool
unfolding strip_left
closes_range [] = false
closes_range (c ∷ s) = if c == b']' then only_spaces s else closes_range s

abbrev opens_range : Text → Bool
unfolding closes_range
opens_range [] = false
opens_range (c ∷ s) = c == b'[' && closes_range s

unfoldable pub before_range : Text → Text
unfolding closes_range strip_left
before_range [] = []
before_range (c ∷ s) = if opens_range (strip_left (c ∷ s)) then [] else c ∷ before_range s

unfoldable pub strip_bit_range : Text → Text
unfolding before_range strip
strip_bit_range name = strip (before_range name)

-- The unit of a time scale, as the power of ten that divides a second.
unfoldable pub timescale_unit : Text → Option ℕ
timescale_unit unit =
    if text_eq unit (codes "s")
    then some 0
    else if text_eq unit (codes "ms")
    then some 3
    else if text_eq unit (codes "us")
    then some 6
    else if text_eq unit (codes "ns")
    then some 9
    else if text_eq unit (codes "ps")
    then some 12
    else if text_eq unit (codes "fs")
    then some 15
    else none

-- The leading digits, and what follows them.
unfoldable pub span_digits : Text → Text × Text
unfolding is_digit
span_digits [] = ([], [])
span_digits (c ∷ s) =
    let (digits, rest) = span_digits s in if is_digit c then (c ∷ digits, rest) else ([], c ∷ s)

unfoldable pub parse_timescale : Text → Result VcdError Fraction
unfolding without_char strip span_digits timescale_unit int_of
parse_timescale text =
    let (digits, unit) = span_digits (strip (without_char b' ' text)) in
    elim (int_of digits) [
      | none ↦ err (unsupported_timescale text)
      | some magnitude ↦ elim (timescale_unit unit) [
        | none ↦ err (unsupported_timescale text)
        | some exponent ↦
            let m = pos_part magnitude in
            if m == 1 || m == 10 || m == 100
            then ok (record { numerator = m; denominator = 10 ^ exponent })
            else err (unsupported_magnitude text)
      ]
    ]

-- `value[-width:]`
abbrev pub last_chars : Text → ℤ → Text
last_chars value (pos zero) = value
last_chars value (pos (suc w)) = drop (length value - suc w) value
last_chars value (negsuc n) = drop (suc n) value

-- What a value that is too short is filled up with on the left.
abbrev pub fill_of : Text → ℕ
fill_of [] = b'0'
fill_of (c ∷ s) = if c == b'x' || c == b'z' then c else b'0'

abbrev pub extend_vector : Text → ℤ → Text
extend_vector value width =
    if ltb_ℤ (pos (length value)) width
    then replicate (pos_part width - length value) (fill_of value) ++ value
    else if ltb_ℤ width (pos (length value))
    then last_chars value width
    else value

unfoldable pub normalise_vector : Text → ℤ → Text
unfolding lower
normalise_vector value width = elim (lower value) [
  | [] ↦ replicate (pos_part width) b'x'
  | c ∷ s ↦ extend_vector (c ∷ s) width
]
