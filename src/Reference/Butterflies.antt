-- ===== src/Reference/Butterflies.antt =====
-- The two butterflies and the command dispatcher of model/reference.py.
use lca.Prelude.{
  ℕ, ◌+◌, ◌-◌, ◌*◌, ◌%◌, ◌^◌, ◌≤◌, ◌<◌, pos, ok, ◌≡◌, ◌∙◌, sym, ap, ◌+ℤ◌, ◌-ℤ◌, mod_ℤ, arith,
  sub_reduced,
}
use native.Mathlib.Nat.{mod-lt, mod-eq_of_lt, add-mod-mod, mod-mod}
use lca.Prelude.{mod-mul_left}
use lca.Reference.Defs.{ct_butterfly, gs_butterfly, reduce}
use lca.Reference.Multiply.{modmul_lem}

add_reduced : (a x q : ℕ) → reduce (pos a +ℤ pos x) (pos q) ≡ pos ((a + x) % q)
unfolding ◌+ℤ◌
add_reduced a x q = ground arith

-- A subtrahend may be reduced first.
sub_reduced_right :
    (a x q : ℕ) → a < q → reduce (pos a -ℤ pos (x % q)) (pos q) ≡ mod_ℤ (pos a -ℤ pos x) q
sub_reduced_right a x q h =
    sym (sub_reduced a (x % q) q h)
    ∙ ap (λ (t : ℕ). pos ((a + q - t) % q)) (mod-mod x q)
    ∙ sub_reduced a x q h

sub_reduced_below :
    (a b q : ℕ) → a < q → b < q → reduce (pos a -ℤ pos b) (pos q) ≡ pos ((a + q - b) % q)
sub_reduced_below a b q ha hb =
    sym (sub_reduced a b q ha) ∙ ap (λ (t : ℕ). pos ((a + q - t) % q)) (mod-eq_of_lt hb)

module _ (a b zeta q : ℕ) (fits : q ≤ 2 ^ 24) (ha : a < q) (hb : b < q) (hz : zeta < q) where
  -- For a modulus up to 2 ** 24 and canonical operands the Cooley-Tukey butterfly returns the
  -- remainders of `a + b * zeta` and of `a - b * zeta`.
  pub ct_butterfly_lem :
      ct_butterfly (pos a) (pos b) (pos zeta) (pos q)
      ≡ ok (pos ((a + b * zeta) % q), mod_ℤ (pos a -ℤ pos (b * zeta)) q)
  unfolding ct_butterfly
  ct_butterfly_lem = ground (
    arith,
    modmul_lem b zeta q fits hb hz,
    add_reduced a (b * zeta % q) q,
    add-mod-mod a (b * zeta) q,
    sub_reduced_right a (b * zeta) q ha,
  )

  -- The Gentleman-Sande butterfly returns the remainders of `a + b` and of `(a - b) * zeta`, where
  -- the difference is lifted by `q`.
  pub gs_butterfly_lem :
      gs_butterfly (pos a) (pos b) (pos zeta) (pos q)
      ≡ ok (pos ((a + b) % q), pos ((a + q - b) * zeta % q))
  unfolding gs_butterfly
  gs_butterfly_lem = ground (
    arith,
    modmul_lem ((a + q - b) % q) zeta q fits (mod-lt _ (omega arith)) hz,
    add_reduced a b q,
    sub_reduced_below a b q ha hb,
    mod-mul_left (a + q - b) zeta q,
  )
