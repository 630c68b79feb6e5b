-- ===== src/Trace/Rounding.antt =====
-- The interval and clock of a trace are positive.
use lca.Prelude.{
  +ℤ_parts, -ℤ_parts, ℕ, ◌*◌, ◌≤◌, ◌<◌, leb, ◌≡◌, subst, true, false, List, [], ◌∷◌, ok, arith,
  Bool-cases, inl, inr, All, ℤ, pos, negsuc, ◌<ℤ◌, ◌≤ℤ◌, length,
}
use native.Mathlib.Nat.{div-eq-sub-div, div-eq_of_lt, mod-eq_of_lt}
use lca.Floats.{Floats}
use lca.Activity.{CycleActivity}
use lca.Trace.Build.{
  intervals, interval_of, uniform_of, sum_ℤ, round_ratio, round_half_even, clock_of,
}
use lca.Trace.Pipeline.{Ascends, stamps}

le_of_leb : {b a : ℕ} → leb b a ≡ true → b ≤ a
le_of_leb h = ground arith

lt_of_leb : {b a : ℕ} → leb b a ≡ false → a < b
lt_of_leb h = ground arith

half_even_positive : (a b : ℕ) → 1 ≤ b → b < 2 * a → 1 ≤ round_half_even a b
unfolding round_half_even
half_even_positive a b h less = elim (Bool-cases (leb b a)) [
  | inl fits ↦ ground (arith, div-eq-sub-div {n = a} h (le_of_leb fits))
  | inr below ↦ ground (arith, div-eq_of_lt (lt_of_leb below), mod-eq_of_lt (lt_of_leb below))
]

abbrev pub AllPositive : List ℤ → Type 0
AllPositive xs = All (λ x. pos 0 <ℤ x) xs

module _ (F : Floats) where
  pub intervals-AllPositive :
      (p : ℤ) (samples : List (CycleActivity F))
      → Ascends p (stamps F samples)
      → AllPositive (intervals F samples)
  unfolding intervals
  intervals-AllPositive p [] a = tt
  intervals-AllPositive p (s ∷ []) a = tt
  intervals-AllPositive p (s ∷ t ∷ rest) a = (
    omega (arith, -ℤ_parts t.timestamp_ns s.timestamp_ns, a.1.0),
    intervals-AllPositive s.timestamp_ns (t ∷ rest) a.1,
  )

length-le_sum : (xs : List ℤ) → AllPositive xs → pos (length xs) ≤ℤ sum_ℤ xs
length-le_sum [] a = omega arith
length-le_sum (x ∷ xs) a = omega (arith, +ℤ_parts x (sum_ℤ xs), length-le_sum xs a.1, a.0)

round_ratio-positive : (x : ℤ) (b : ℕ) → 1 ≤ b → pos b ≤ℤ x → pos 0 <ℤ round_ratio x b
round_ratio-positive (pos a) b h k = omega (arith, half_even_positive a b h (omega (arith, h, k)))
round_ratio-positive (negsuc a) b h k = absurd (omega (arith, h, k))

pub interval_of-positive :
    (xs : List ℤ) (interval : ℤ) → AllPositive xs → interval_of xs ≡ ok interval → pos 0 <ℤ interval
unfolding interval_of
interval_of-positive [] interval a h = absurd (ground arith)
interval_of-positive (x ∷ xs) interval a h = elim (Bool-cases (uniform_of (x ∷ xs))) [
  | inl even ↦ subst (λ i. pos 0 <ℤ i) (first even) a.0
  | inr uneven ↦
      subst (λ i. pos 0 <ℤ i) (mean uneven)
        (round_ratio-positive (sum_ℤ (x ∷ xs)) (length (x ∷ xs)) (omega arith)
          (length-le_sum (x ∷ xs) a))
]
  where
    first : uniform_of (x ∷ xs) ≡ true → x ≡ interval
    first e = ground arith

    mean : uniform_of (x ∷ xs) ≡ false → round_ratio (sum_ℤ (x ∷ xs)) (length (x ∷ xs)) ≡ interval
    mean e = ground arith

pub clock_of-positive :
    (interval : ℤ) → pos 0 <ℤ interval → interval <ℤ pos 2_000_000_000 → pos 0 <ℤ clock_of interval
clock_of-positive (pos n) h k =
    omega (arith, half_even_positive 1_000_000_000 n (omega (arith, h)) (omega (arith, k)))
clock_of-positive (negsuc n) h k = absurd (omega (arith, h))
