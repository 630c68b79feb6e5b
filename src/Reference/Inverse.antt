-- ===== src/Reference/Inverse.antt =====
-- The inverse butterfly of model/reference.py undoes the forward one, up to the factor two that an
-- inverse transform divides out at its end.
use lca.Prelude.{
  ℕ, ◌+◌, ◌-◌, ◌*◌, ◌%◌, ◌^◌, ◌≤◌, ◌<◌, pos, ok, ◌≡◌, ◌∙◌, sym, ap, ◌>>=◌, arith, sub_reduced,
  mod-eq_of_shift, mod-mul_left, mod-mul_right, cond_sub_mod,
}
use native.Mathlib.Nat.{mul-one, mod-lt, mod-eq_of_lt, add-mod, add-mod-mod}
use lca.Reference.Defs.{ct_butterfly, gs_butterfly}
use lca.Reference.Butterflies.{ct_butterfly_lem, gs_butterfly_lem}

module _ (a t q : ℕ) (ha : a < q) (ht : t < q) where
  -- The sum of the two outputs is twice `a`.
  outputs_sum : ((a + t) % q + (a + q - t) % q) % q ≡ (a + a) % q
  outputs_sum = sym (add-mod (a + t) (a + q - t) q) ∙ mod-eq_of_shift _ (a + a) 1 q (omega arith)

  -- Their difference is twice the product.
  outputs_difference : ((a + t) % q + q - (a + q - t) % q) % q ≡ (t + t) % q
  outputs_difference = ground (
    arith,
    cond_sub_mod (a + t) q,
    cond_sub_mod (a + q - t) q,
    mod-eq_of_shift (t + t + q) (t + t) 1 q,
    mod-eq_of_shift (t + t) (t + t - q) 1 q,
  )

-- Twice a reduced product, times the inverse twiddle, is twice the other factor.
doubled_back :
    (b zeta zeta' q : ℕ)
    → zeta * zeta' % q ≡ 1
    → b < q
    → (b * zeta % q + b * zeta % q) * zeta' % q ≡ (b + b) % q
doubled_back b zeta zeta' q inverse hb =
    let back : b * zeta % q * zeta' % q ≡ b =
      mod-mul_left (b * zeta) zeta' q
      ∙ ap (λ (t : ℕ). t % q) (omega arith)
      ∙ sym (mod-mul_right b (zeta * zeta') q)
      ∙ ap (λ (t : ℕ). b * t % q) inverse
      ∙ rw (mul-one, mod-eq_of_lt hb) in
    ap (λ (t : ℕ). t % q) (omega arith)
    ∙ add-mod (b * zeta % q * zeta') (b * zeta % q * zeta') q
    ∙ ap (λ (t : ℕ). (t + t) % q) back

module _ (a b zeta zeta' q : ℕ) (fits : q ≤ 2 ^ 24) (inverse : zeta * zeta' % q ≡ 1) (ha : a < q)
    (hb : b < q) (hz : zeta < q) (hz' : zeta' < q) where
  forward :
      ct_butterfly (pos a) (pos b) (pos zeta) (pos q)
      ≡ ok (pos ((a + b * zeta % q) % q), pos ((a + q - b * zeta % q) % q))
  forward = cc (
    ct_butterfly_lem a b zeta q fits ha hb hz,
    add-mod-mod a (b * zeta) q,
    sub_reduced a (b * zeta) q ha,
  )

  -- For a modulus up to 2 ** 24 and twiddles whose product is one in the field, the
  -- Gentleman-Sande butterfly takes the outputs of the Cooley-Tukey butterfly on canonical `a` and
  -- `b` back to twice `a` and twice `b`.
  pub gs_butterfly-ct_butterfly :
      (ct_butterfly (pos a) (pos b) (pos zeta) (pos q) >>= λ (u, v).
      gs_butterfly u v (pos zeta') (pos q))
      ≡ ok (pos ((a + a) % q), pos ((b + b) % q))
  gs_butterfly-ct_butterfly =
      let t : ℕ = b * zeta % q in
      let ht : t < q = mod-lt (b * zeta) (omega arith) in
      let u : ℕ = (a + t) % q in
      let v : ℕ = (a + q - t) % q in
      let hu : u < q = mod-lt (a + t) (omega arith) in
      let hv : v < q = mod-lt (a + q - t) (omega arith) in
      rw (forward) (
        gs_butterfly_lem u v zeta' q fits hu hv hz'
        ∙ ap (λ (x : ℕ). ok (pos x, pos ((u + q - v) * zeta' % q))) (outputs_sum a t q ha ht)
        ∙ ap (λ (x : ℕ). ok (pos ((a + a) % q), pos x))
            (sym (mod-mul_left (u + q - v) zeta' q)
              ∙ ap (λ (x : ℕ). x * zeta' % q) (outputs_difference a t q ha ht)
              ∙ mod-mul_left (t + t) zeta' q
              ∙ doubled_back b zeta zeta' q inverse hb))
