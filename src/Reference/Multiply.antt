-- ===== src/Reference/Multiply.antt =====
-- The fixed 24 rounds of `modmul` in model/reference.py, for an arbitrary modulus.
use lca.Prelude.{
  ℕ, zero, suc, ◌+◌, ◌*◌, ◌/◌, ◌%◌, ◌^◌, ◌≤◌, ◌<◌, ℤ, pos, ok, ◌≡◌, ◌∙◌, sym, ap, inl, inr, ◌+ℤ◌,
  arith, shl, Bool-cases,
}
use native.Mathlib.Nat.{mod-lt, mod-eq_of_lt, mul-one, mul-zero, add-zero}
use lca.Prelude.{cond_sub_mod, digits_of_product, odd, odd_digit}
use lca.Reference.Defs.{modmul_rounds, modmul, subtract_once}

subtract_once_lem : (t q : ℕ) → t < q + q → subtract_once (pos t) (pos q) ≡ pos (t % q)
unfolding subtract_once
subtract_once_lem t q h = ground (arith, cond_sub_mod t q)

double_lem : (m q : ℕ) → m < q → subtract_once (shl (pos m) 1) (pos q) ≡ pos ((m + m) % q)
double_lem m q h =
    subtract_once_lem (m * 2) q (omega arith) ∙ ap (λ (t : ℕ). pos (t % q)) (omega arith)

add_lem : (p m q : ℕ) → p < q → m < q → subtract_once (pos p +ℤ pos m) (pos q) ≡ pos ((p + m) % q)
unfolding ◌+ℤ◌
add_lem p m q hp hm =
    ap (λ (t : ℤ). subtract_once t (pos q)) (ground arith)
    ∙ subtract_once_lem (p + m) q (omega arith)

module _ (q : ℕ) where
  round_lem :
      (rounds p m k : ℕ)
      → p < q
      → m < q
      → modmul_rounds (suc rounds) (pos q) (pos p) (pos m) (pos k)
        ≡ modmul_rounds rounds
            (pos q)
            (pos ((p + m * (k % 2)) % q))
            (pos ((m + m) % q))
            (pos (k / 2))
  unfolding modmul_rounds
  round_lem rounds p m k hp hm = elim (Bool-cases (odd k)) [
    | inl one ↦
        let digit : k % 2 ≡ 1 = rw one at (sym (odd_digit k)) in
        rw (one, add_lem p m q hp hm, double_lem m q hm, digit, mul-one)
    | inr even ↦
        let digit : k % 2 ≡ 0 = rw even at (sym (odd_digit k)) in
        rw (even, double_lem m q hm, digit, mul-zero, add-zero, mod-eq_of_lt hp)
  ]

  modmul_rounds_lem :
      (rounds p m k : ℕ)
      → p < q
      → m < q
      → modmul_rounds rounds (pos q) (pos p) (pos m) (pos k) ≡ pos ((p + m * (k % 2 ^ rounds)) % q)
  modmul_rounds_lem zero p m k hp hm = unfold modmul_rounds in ground (arith, mod-eq_of_lt hp)
  modmul_rounds_lem (suc rounds) p m k hp hm =
      round_lem rounds p m k hp hm
      ∙ modmul_rounds_lem rounds ((p + m * (k % 2)) % q) ((m + m) % q) (k / 2)
          (mod-lt _ (omega arith)) (mod-lt _ (omega arith))
      ∙ ap (λ (t : ℕ). pos t) (digits_of_product p m k rounds q)

-- For canonical operands of any modulus, `modmul` returns the product by the low 24 binary digits
-- of the multiplier, reduced.
pub modmul-digits :
    (a b q : ℕ) → a < q → b < q → modmul (pos a) (pos b) (pos q) ≡ ok (pos (a * (b % 2 ^ 24) % q))
unfolding modmul
modmul-digits a b q ha hb = ground (arith, modmul_rounds_lem q 24 0 a b (omega arith) ha)

-- Up to the modulus 2 ** 24 these are all digits, and `modmul` is multiplication in the field.
pub modmul_lem :
    (a b q : ℕ) → q ≤ 2 ^ 24 → a < q → b < q → modmul (pos a) (pos b) (pos q) ≡ ok (pos (a * b % q))
modmul_lem a b q fits ha hb =
    modmul-digits a b q ha hb ∙ ap (λ (t : ℕ). ok (pos (a * t % q))) (mod-eq_of_lt (omega arith))
