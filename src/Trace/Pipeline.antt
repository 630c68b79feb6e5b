-- ===== src/Trace/Pipeline.antt =====
-- The time stamps of the samples of a parsed dump rise strictly.
use native.Mathlib.Nat.{lt_of_mul-lt-mul_left, mul-lt-mul_of_pos_left, div-add-mod'}
use mathlib.Core.List.{head?}
use lca.Prelude.{
  ℕ, ◌*◌, ◌/◌, ◌%◌, ◌^◌, ◌<◌, ◌==◌, ◌&&◌, not, ◌≡◌, subst, true, List, [], ◌∷◌, map, Option, none,
  some, ok, arith, Bool-cases, Result-cases, inl, inr, ℤ, pos, negsuc, ◌<ℤ◌, ◌≤ℤ◌,
}
use lca.Text.{Text, text_eq}
use lca.Dict.{Dict, get_or, update}
use lca.Floats.{Floats}
use lca.Vcd.{VcdFile, TimeBlock, Fraction, times, Rising, IsPositive, IsWellFormed}
use lca.Activity.{
  sample_of, snapshot, Edge, edges, samples_of, sample_of, snapshot, TrackedSignal, CycleActivity,
  StateRules, time_to_ns, unknown, high,
}

-- Each stands above the one before, the first above a bound.
abbrev pub Ascends : ℤ → List ℤ → Type 0
Ascends p [] = Unit
Ascends p (x ∷ xs) = (p <ℤ x) × Ascends x xs

lt_trans : (a b c : ℤ) → a <ℤ b → b <ℤ c → a <ℤ c
lt_trans a b c h k = omega arith

Ascends-weaken : (p q : ℤ) (xs : List ℤ) → p <ℤ q → Ascends q xs → Ascends p xs
Ascends-weaken p q [] h a = tt
Ascends-weaken p q (x ∷ xs) h a = (lt_trans p q x h a.0, a.1)

Rising-Ascends : (x : ℤ) (xs : List ℤ) → Rising (x ∷ xs) → Ascends x xs
Rising-Ascends x [] r = tt
Rising-Ascends x (y ∷ xs) r = (r.0, Rising-Ascends y xs r.1)

IsWellFormed-Ascends : (ts : List ℤ) → Rising ts → head? ts ≡ some (pos 0) → Ascends (negsuc 0) ts
IsWellFormed-Ascends [] r h = tt
IsWellFormed-Ascends (t ∷ ts) r h = (ground arith, Rising-Ascends t ts r)

abbrev edge_times : List Edge → List ℤ
edge_times es = map (λ (e : Edge). e.time) es

edges-Ascends :
    (clock previous : Text) (values : Dict Text) (p : ℤ) (blocks : List TimeBlock)
    → Ascends p (times blocks)
    → Ascends p (edge_times (edges clock previous values blocks))
unfolding edges
edges-Ascends clock previous values p [] a = tt
edges-Ascends clock previous values p (block ∷ rest) a =
    elim (Bool-cases (
      text_eq (get_or clock unknown (update values block.changes)) high
      && not (text_eq previous high))) [
        | inl rises ↦ rw rises (
          a.0,
          edges-Ascends clock (get_or clock unknown (update values block.changes))
              (update values block.changes) block.time rest a.1,
        )
        | inr still ↦ rw still (
            edges-Ascends clock (get_or clock unknown (update values block.changes))
              (update values block.changes) p rest
              (Ascends-weaken p block.time (times rest) a.0 a.1))
      ]

-- A time and its whole number of nanoseconds, or minus one for both.
data Scaled (scale : Fraction) : ℤ → ℤ → Type 0 where
  start : Scaled scale (negsuc 0) (negsuc 0)
  scaled :
      (t n : ℕ)
      → n * scale.denominator ≡ t * scale.numerator * 10 ^ 9
      → Scaled scale (pos t) (pos n)

exact_quotient : (a b : ℕ) → a % b == 0 ≡ true → a / b * b ≡ a
exact_quotient a b h = omega (arith, div-add-mod' a b, the_rest h)
  where
    the_rest : a % b == 0 ≡ true → a % b ≡ 0
    the_rest e = ground arith

time_to_ns-Scaled :
    (t n : ℤ) (scale : Fraction) → pos 0 ≤ℤ t → time_to_ns t scale ≡ ok n → Scaled scale t n
unfolding time_to_ns
time_to_ns-Scaled (pos t) n scale h e =
    elim (Bool-cases (t * scale.numerator * 10 ^ 9 % scale.denominator == 0)) [
      | inr rest ↦ absurd (ground arith)
      | inl whole ↦
          subst (Scaled scale (pos t)) (value whole)
            (scaled t _ (exact_quotient (t * scale.numerator * 10 ^ 9) scale.denominator whole))
    ]
  where
    value :
        t * scale.numerator * 10 ^ 9 % scale.denominator == 0 ≡ true
        → pos (t * scale.numerator * 10 ^ 9 / scale.denominator) ≡ n
    value whole = ground arith
time_to_ns-Scaled (negsuc t) n scale h e = absurd (omega (arith, h))

Scaled_mono :
    (scale : Fraction) (t n u m : ℤ)
    → IsPositive scale
    → Scaled scale t n
    → Scaled scale u m
    → pos 0 ≤ℤ u
    → t <ℤ u
    → n <ℤ m
Scaled_mono scale _ _ _ _ v start start h lt = absurd (omega (arith, h))
Scaled_mono scale _ _ _ _ v start (scaled u m e) h lt = omega arith
Scaled_mono scale _ _ _ _ v (scaled t n e) start h lt = absurd (omega (arith, h))
Scaled_mono scale _ _ _ _ v (scaled t n e) (scaled u m f) h lt =
    omega (arith, smaller (omega (arith, lt)))
  where
    smaller : t < u → n < m
    smaller l =
        lt_of_mul-lt-mul_left scale.denominator
          (omega (arith, e, f, mul-lt-mul_of_pos_left l v.numerator))

abbrev pub stamps : (F : Floats) → List (CycleActivity F) → List ℤ
stamps F samples = map (λ (s : CycleActivity F). s.timestamp_ns) samples

module _ (F : Floats) (scale : Fraction) (tracked : List (TrackedSignal F)) (clock : Text)
    (rules : StateRules) where
  samples_of-Ascends :
      (previous : Option (Dict Text)) (es : List Edge) (samples : List (CycleActivity F)) (p n : ℤ)
      → IsPositive scale
      → Scaled scale p n
      → negsuc 0 ≤ℤ p
      → Ascends p (edge_times es)
      → samples_of F scale tracked clock rules previous es ≡ ok samples
      → Ascends n (stamps F samples)
  unfolding samples_of
  samples_of-Ascends previous [] samples p n v s low a h =
      subst (λ l. Ascends n (stamps F l)) (nothing h) tt
    where
      nothing : samples_of F scale tracked clock rules previous [] ≡ ok samples → [] ≡ samples
      nothing e = ground arith
  samples_of-Ascends previous (e ∷ es) samples p n v s low a h =
      elim (Result-cases (time_to_ns e.time scale)) [
        | inr (problem, failed) ↦ absurd (ground arith)
        | inl (t, timed) ↦
            elim (Result-cases
              (samples_of F scale tracked clock rules (some (snapshot F e.after tracked)) es)) [
                | inr (problem, failed) ↦ absurd (ground arith)
                | inl (later, fine) ↦
                    subst (λ l. Ascends n (stamps F l)) (made t later timed fine)
                      (
                        Scaled_mono scale p n e.time t v s
                            (time_to_ns-Scaled e.time t scale not_below timed) not_below a.0,
                        samples_of-Ascends (some (snapshot F e.after tracked)) es later e.time t v
                            (time_to_ns-Scaled e.time t scale not_below timed)
                            (omega (arith, not_below)) a.1 fine,
                      )
              ]
      ]
    where
      not_below : pos 0 ≤ℤ e.time
      not_below = omega (arith, low, a.0)

      made :
          (t : ℤ) (later : List (CycleActivity F))
          → time_to_ns e.time scale ≡ ok t
          → samples_of F scale tracked clock rules (some (snapshot F e.after tracked)) es ≡ ok later
          → sample_of F scale tracked clock rules previous e t ∷ later ≡ samples
      made t later timed fine = ground arith

-- The samples of a well-formed file have time stamps that rise strictly from zero or above.
pub compute_cycle_activity-Ascends :
    (F : Floats) (vcd : VcdFile) (tracked : List (TrackedSignal F)) (clock : Text)
    (rules : StateRules) (samples : List (CycleActivity F))
    → IsWellFormed vcd
    → samples_of F vcd.timescale_seconds tracked clock rules none
        (edges clock unknown [] vcd.time_blocks)
      ≡ ok samples
    → Ascends (negsuc 0) (stamps F samples)
compute_cycle_activity-Ascends F vcd tracked clock rules samples v h =
    samples_of-Ascends F vcd.timescale_seconds tracked clock rules none
      (edges clock unknown [] vcd.time_blocks) samples (negsuc 0) (negsuc 0) v.scale start
      (omega arith)
      (edges-Ascends clock unknown [] (negsuc 0) vcd.time_blocks
        (IsWellFormed-Ascends (times vcd.time_blocks) v.rising v.first))
      h
