-- ===== src/Modarith/Multiply.antt =====
-- The shift-add loop of model/modarith.py, from its round to the product.
use lca.Prelude.{
  ℕ, zero, suc, ◌+◌, ◌*◌, ◌/◌, ◌%◌, ◌^◌, ◌<◌, pos, ok, ◌≡◌, ◌∙◌, sym, ap, inl, inr, arith,
  Bool-cases,
}
use native.Mathlib.Nat.{mod-lt, mod-eq_of_lt, mul-one, mul-zero, add-zero}
use lca.Modarith.Defs.{multiply_rounds}
use lca.Prelude.{odd, odd_digit, digits_of_product}
use lca.Modarith.Steps.{IsSupported, add_mod_lem}

pub supported_pos : (q : ℕ) → IsSupported q → 0 < q
supported_pos q s = ground arith

module _ (q : ℕ) (supported : IsSupported q) where
  -- A round adds the multiplicand when the multiplier is odd, doubles it, and halves the multiplier.
  round_lem :
      (rounds p m k : ℕ)
      → p < q
      → m < q
      → multiply_rounds (suc rounds) (pos q) (pos p) (pos m) (pos k)
        ≡ multiply_rounds rounds
            (pos q)
            (pos ((p + m * (k % 2)) % q))
            (pos ((m + m) % q))
            (pos (k / 2))
  unfolding multiply_rounds
  round_lem rounds p m k hp hm = elim (Bool-cases (odd k)) [
    | inl one ↦
        let digit : k % 2 ≡ 1 = rw one at (sym (odd_digit k)) in
        rw (
          one,
          add_mod_lem p m q supported hp hm,
          add_mod_lem m m q supported hm hm,
          digit,
          mul-one,
        )
    | inr even ↦
        let digit : k % 2 ≡ 0 = rw even at (sym (odd_digit k)) in
        rw (even, add_mod_lem m m q supported hm hm, digit, mul-zero, add-zero, mod-eq_of_lt hp)
  ]

  -- After the rounds the product is `p + m * k`, where only the low digits of `k` count.
  pub multiply_rounds_lem :
      (rounds p m k : ℕ)
      → p < q
      → m < q
      → multiply_rounds rounds (pos q) (pos p) (pos m) (pos k)
        ≡ ok (pos ((p + m * (k % 2 ^ rounds)) % q))
  multiply_rounds_lem zero p m k hp hm = unfold multiply_rounds in ground (arith, mod-eq_of_lt hp)
  multiply_rounds_lem (suc rounds) p m k hp hm =
      round_lem rounds p m k hp hm
      ∙ multiply_rounds_lem rounds ((p + m * (k % 2)) % q) ((m + m) % q) (k / 2)
          (omega (arith, mod-lt _ (supported_pos q supported))) (omega arith)
      ∙ ap (λ (t : ℕ). ok (pos t)) (digits_of_product p m k rounds q)
