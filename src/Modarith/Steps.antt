-- ===== src/Modarith/Steps.antt =====
-- The single modular operations of model/modarith.py agree with remainders.
use lca.Prelude.{ℕ, ◌+◌, ◌-◌, ◌%◌, ◌<◌, pos, ok, ◌≡◌, ◌⊎◌, arith}
use lca.Prelude.{cond_sub_mod}
use lca.Modarith.Defs.{kem_q, dsa_q, add_mod, sub_mod}

abbrev pub IsSupported : ℕ → Type 0
IsSupported q = (q ≡ kem_q) ⊎ (q ≡ dsa_q)

module _ (a b q : ℕ) (supported : IsSupported q) (ha : a < q) (hb : b < q) where
  pub add_mod_lem : add_mod (pos a) (pos b) (pos q) ≡ ok (pos ((a + b) % q))
  unfolding add_mod
  add_mod_lem = ground (arith, cond_sub_mod (a + b) q)

  pub sub_mod_lem : sub_mod (pos a) (pos b) (pos q) ≡ ok (pos ((a + q - b) % q))
  unfolding sub_mod
  sub_mod_lem = ground (arith, cond_sub_mod (a + q - b) q)
