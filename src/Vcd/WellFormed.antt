-- ===== src/Vcd/WellFormed.antt =====
-- What `parse_vcd` guarantees of a file that it returns.
use mathlib.Core.List.{head?}
use native.Mathlib.Nat.{one-le-pow}
use lca.Prelude.{
  ℕ, ◌≤◌, ◌^◌, pos, ◌≡◌, ◌≢◌, refl, subst, [], some, ok, err, arith, Result-cases, Option-cases,
  inl, inr, length,
}
use lca.Text.{Text, split, splitlines, strip, without_char, int_of}
use lca.Vcd.Defs.{Fraction, parse_timescale, span_digits, timescale_unit}
use lca.Vcd.Parse.{
  VcdFile, Body, blocks, start_body, widths, read_lines, read_body, file_parts, parse_vcd,
}
use lca.Vcd.Sections.{Header, start_header, header_rounds}
use lca.Vcd.Blocks.{times, Rising, IsOrdered, read_lines-IsOrdered, times_closed}

-- A fraction above zero.
pub record IsPositive (r : Fraction) : Type 0 where
  pub numerator : 1 ≤ r.numerator
  pub denominator : 1 ≤ r.denominator

ten_pow_positive : (k : ℕ) → 1 ≤ 10 ^ k
ten_pow_positive k = one-le-pow k 10 (omega arith)

parse_timescale-IsPositive :
    (text : Text) (r : Fraction) → parse_timescale text ≡ ok r → IsPositive r
unfolding parse_timescale
parse_timescale-IsPositive text r h = elim (Option-cases (int_of digits)) [
  | inl none_there ↦ absurd (ground arith)
  | inr (magnitude, e) ↦ elim (Option-cases (timescale_unit unit)) [
    | inl no_unit ↦ absurd (ground arith)
    | inr (exponent, u) ↦ record {
      numerator = ground arith;
      denominator = ground (arith, ten_pow_positive exponent);
    }
  ]
]
  where
    digits : Text
    digits = (span_digits (strip (without_char b' ' text))).0

    unit : Text
    unit = (span_digits (strip (without_char b' ' text))).1

-- A parsed file declares a signal, and the times of its blocks rise strictly from zero; its time
-- scale is positive.
pub record IsWellFormed (f : VcdFile) : Type 0 where
  pub declared : f.variables ≢ []
  pub rising : Rising (times f.time_blocks)
  pub first : head? (times f.time_blocks) ≡ some (pos 0)
  pub scale : IsPositive f.timescale_seconds

start-IsOrdered : IsOrdered start_body
start-IsOrdered = record { rising = tt; first = refl }

IsWellFormed-blocks :
    (b : Body) (f : VcdFile)
    → f.variables ≢ []
    → f.time_blocks ≡ blocks b
    → IsOrdered b
    → IsPositive f.timescale_seconds
    → IsWellFormed f
IsWellFormed-blocks b f declared e o scale = record {
  declared = declared;
  rising = rw (e, times_closed b) o.rising;
  first = rw (e, times_closed b) o.first;
  scale = scale;
}

read_body-IsWellFormed :
    (h : Header) (body : Text) (f : VcdFile) → read_body h body ≡ ok f → IsWellFormed f
unfolding read_body
read_body-IsWellFormed h body f e =
    elim (Result-cases (read_lines (widths h.variables) start_body (splitlines body))) [
      | inr (problem, failed) ↦ absurd (ground arith)
      | inl (b, fine) ↦ elim (Result-cases (parse_timescale h.timescale_text)) [
        | inr (problem, failed) ↦ absurd (ground arith)
        | inl (seconds, scaled) ↦
            IsWellFormed-blocks b f (ground arith) (ground arith)
              (read_lines-IsOrdered (widths h.variables) start_body (splitlines body) b fine
                start-IsOrdered)
              (subst IsPositive (kept b seconds fine scaled)
                (parse_timescale-IsPositive h.timescale_text seconds scaled))
      ]
    ]
  where
    kept :
        (b : Body) (seconds : Fraction)
        → read_lines (widths h.variables) start_body (splitlines body) ≡ ok b
        → parse_timescale h.timescale_text ≡ ok seconds
        → seconds ≡ f.timescale_seconds
    kept b seconds fine scaled = ground arith

-- Every file that parses declares at least one signal, and the times of its change blocks rise
-- strictly from zero, and its time scale is positive.
pub parse_vcd-IsWellFormed :
    (text : Text) (f : VcdFile) → parse_vcd text ≡ some (ok f) → IsWellFormed f
unfolding parse_vcd
parse_vcd-IsWellFormed text f e = elim (Result-cases (file_parts text)) [
  | inr (problem, failed) ↦ absurd (ground arith)
  | inl ((header, body), parts) ↦
      elim (Option-cases (header_rounds (length (split header)) (split header) start_header)) [
        | inl out ↦ absurd (ground arith)
        | inr (err problem, failed) ↦ absurd (ground arith)
        | inr (ok h, fine) ↦ read_body-IsWellFormed h body f (ground arith)
      ]
]
