-- ===== src/Fastmod/Dsa.antt =====
-- The Solinas folds of model/fastmod.py for q = 2 ** 23 - 2 ** 13 + 1.
use lca.Prelude.{
  ℕ, ◌+◌, ◌*◌, ◌/◌, ◌%◌, ◌^◌, ◌≤◌, ◌<◌, ℤ, pos, negsuc, ◌+ℤ◌, ◌-ℤ◌, ◌*ℤ◌, shr, ◌≡◌, ◌∙◌, ap, sym,
  arith, and_mask, mod-eq_of_shift,
}
use lca.Fastmod.Defs.{dsa_fold, reduce_dsa, dsa_s, q_dsa}
use lca.Fastmod.Select.{cond_sub-mod}

abbrev folded : ℕ → ℕ
folded n = n % 2 ^ 23 + n / 2 ^ 23 * 8191

dsa_fold-pos : (n : ℕ) → dsa_fold (pos n) ≡ pos (folded n)
unfolding dsa_fold ◌+ℤ◌ ◌-ℤ◌
dsa_fold-pos n = ground (arith, and_mask (pos n) 23)

-- A Solinas fold subtracts a multiple of the modulus, for every integer: the multiple is the high part.
pub dsa_fold_identity : (v : ℤ) → dsa_fold v +ℤ shr v dsa_s *ℤ q_dsa ≡ v
unfolding dsa_fold ◌+ℤ◌ ◌-ℤ◌ ◌*ℤ◌
dsa_fold_identity (pos n) = ground (arith, and_mask (pos n) 23)
dsa_fold_identity (negsuc n) = ground (arith, and_mask (negsuc n) 23)

folded_mod : (n : ℕ) → folded n % 8380417 ≡ n % 8380417
folded_mod n = sym (mod-eq_of_shift n (folded n) (n / 2 ^ 23) 8380417 (omega arith))

-- The worst case of each of the four folds.
pub folded_bounds :
    (n : ℕ)
    → n < 2 ^ 46
    → (folded n ≤ 68719468544)
      × (folded (folded n) ≤ 75472897)
      × (folded (folded (folded n)) ≤ 8445944)
      × (folded (folded (folded (folded n))) ≤ 8388607)
folded_bounds n h =
    let one : folded n ≤ 68719468544 = omega arith in
    let two : folded (folded n) ≤ 75472897 = bound_second (folded n) one in
    let three : folded (folded (folded n)) ≤ 8445944 = bound_third (folded (folded n)) two in
    (one, two, three, bound_fourth (folded (folded (folded n))) three)
  where
    bound_second : (m : ℕ) → m ≤ 68719468544 → folded m ≤ 75472897
    bound_second m k = omega arith

    bound_third : (m : ℕ) → m ≤ 75472897 → folded m ≤ 8445944
    bound_third m k = omega arith

    bound_fourth : (m : ℕ) → m ≤ 8445944 → folded m ≤ 8388607
    bound_fourth m k = omega arith

-- For every product below 2 ** 46, `reduce_dsa` returns its remainder by 8380417.
pub reduce_dsa_lem : (n : ℕ) → n < 2 ^ 46 → reduce_dsa (pos n) ≡ pos (n % 8380417)
unfolding reduce_dsa
reduce_dsa_lem n h =
    let f1 : ℕ = folded n in
    let f2 : ℕ = folded f1 in
    let f3 : ℕ = folded f2 in
    let f4 : ℕ = folded f3 in
    rw (dsa_fold-pos n, dsa_fold-pos f1, dsa_fold-pos f2, dsa_fold-pos f3)
      (cond_sub-mod f4 8380417 24 (omega (arith, (folded_bounds n h).3))
          (omega (arith, (folded_bounds n h).3)) (omega arith)
        ∙ ap pos (folded_mod f3 ∙ folded_mod f2 ∙ folded_mod f1 ∙ folded_mod n))
