-- ===== src/Fastmod/Select.antt =====
-- The branch-free conditional subtraction of model/fastmod.py selects like a branch.
use lca.Prelude.{
  ℕ, ◌+◌, ◌-◌, ◌%◌, ◌^◌, ◌<◌, pos, ◌≡◌, ◌∙◌, ap, leb, if◌then◌else◌, arith, bit_and-zero,
  cond_sub_mod,
}
use native.Mathlib.Nat.{div-eq_of_lt}
use lca.Fastmod.Defs.{cond_sub}

-- For a value and a modulus below the width's power of two, the arithmetic select subtracts the
-- modulus exactly when it fits.
pub cond_sub-if :
    (v m w : ℕ)
    → v < 2 ^ w
    → m < 2 ^ w
    → cond_sub (pos v) (pos m) w ≡ pos (if leb m v then v - m else v)
unfolding cond_sub
cond_sub-if v m w hv hm = ground (
  arith,
  bit_and-zero m,
  div-eq_of_lt {n = v - m} {m = 2 ^ w} (omega arith),
  div-eq_of_lt {n = m - v - 1} {m = 2 ^ w} (omega arith),
)

pub cond_sub-mod :
    (v m w : ℕ) → v < m + m → v < 2 ^ w → m < 2 ^ w → cond_sub (pos v) (pos m) w ≡ pos (v % m)
cond_sub-mod v m w small hv hm = cond_sub-if v m w hv hm ∙ ap pos (cond_sub_mod v m small)
