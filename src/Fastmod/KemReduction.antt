-- ===== src/Fastmod/KemReduction.antt =====
-- From the K-RED steps of model/fastmod.py to the exact reduction by 3329.
use lca.Prelude.{
  ℕ, ◌+◌, ◌-◌, ◌*◌, ◌/◌, ◌%◌, ◌^◌, ◌≤◌, ◌<◌, ℤ, pos, negsuc, ◌+ℤ◌, ◌*ℤ◌, sub_ℕ, ◌≡◌, ◌∙◌, ap, arith,
  leb, if◌then◌else◌, sym, mod-eq_of_shift, Bool-cases, inl, inr, leb→le, subst,
}
use lca.Fastmod.Defs.{kred, k2red, kem_normalize, kred2_norm, reduce_kem, q_kem}
use lca.Fastmod.Select.{cond_sub-mod, cond_sub-if}
use lca.Fastmod.Kem.{kred-pos, kred-negsuc}

-- Two conditional subtractions reduce what the lift by 3329 leaves.
kem_normalize_lem :
    (z : ℤ) (s : ℕ) → z +ℤ q_kem ≡ pos s → s < 6901 → kem_normalize z ≡ pos (s % 3329)
unfolding kem_normalize
kem_normalize_lem z s lifted small =
    let once : ℕ = if leb 3329 s then s - 3329 else s in
    rw
      (
        lifted,
        cond_sub-if s 3329 13 (omega arith) (omega arith),
        cond_sub-mod once 3329 13 (ground arith) (ground arith) (omega arith),
      )
      (ground arith)

-- What `k2red` of a product below 2 ** 24 is, lifted by 3329: a number below 6901 with the remainder of
-- 169 times the product.
record Lifted (n : ℕ) (z : ℤ) : Type 0 where
  lift : ℕ
  lifts : z +ℤ q_kem ≡ pos lift
  small : lift < 6901
  same : lift % 3329 ≡ 169 * n % 3329

Lifted-pos :
    (c1 c0 : ℕ)
    → c0 < 256
    → c1 < 65536
    → c1 ≤ 13 * c0
    → Lifted (256 * c1 + c0) (kred (pos (13 * c0 - c1)))
unfolding ◌+ℤ◌
Lifted-pos c1 c0 h0 h1 le =
    let y : ℕ = 13 * c0 - c1 in
    rw (kred-pos y) (record {
      lift = 3329 + 13 * (y % 256) - y / 256;
      lifts = ground arith;
      small = omega arith;
      same =
          sym (
            mod-eq_of_shift (169 * (256 * c1 + c0) + 3329) (3329 + 13 * (y % 256) - y / 256)
              (13 * c1 + y / 256) 3329 (omega arith))
          ∙ mod-eq_of_shift _ (169 * (256 * c1 + c0)) 1 3329 (omega arith);
    })

Lifted-negsuc :
    (c1 c0 : ℕ)
    → c0 < 256
    → c1 < 65536
    → 13 * c0 < c1
    → Lifted (256 * c1 + c0) (kred (negsuc (c1 - 13 * c0 - 1)))
unfolding ◌+ℤ◌
Lifted-negsuc c1 c0 h0 h1 lt =
    let y : ℕ = c1 - 13 * c0 - 1 in
    rw (kred-negsuc y) (record {
      lift = 3329 + (13 * (255 - y % 256) + y / 256 + 1);
      lifts = ground arith;
      small = omega arith;
      same =
          sym (
            mod-eq_of_shift (169 * (256 * c1 + c0) + 3329)
              (3329 + (13 * (255 - y % 256) + y / 256 + 1)) (13 * c1 - (y / 256 + 1)) 3329
              (omega arith))
          ∙ mod-eq_of_shift _ (169 * (256 * c1 + c0)) 1 3329 (omega arith);
    })

Lifted-parts :
    (c1 c0 : ℕ) → c0 < 256 → c1 < 65536 → Lifted (256 * c1 + c0) (kred (sub_ℕ (13 * c0) c1))
Lifted-parts c1 c0 h0 h1 = elim (Bool-cases (leb c1 (13 * c0))) [
  | inl le ↦ rw le (Lifted-pos c1 c0 h0 h1 (leb→le c1 (13 * c0) le))
  | inr lt ↦ rw lt (Lifted-negsuc c1 c0 h0 h1 (ground arith))
]

k2red-Lifted : (n : ℕ) → n < 2 ^ 24 → Lifted n (k2red (pos n))
unfolding k2red
k2red-Lifted n h =
    let parts : 256 * (n / 256) + n % 256 ≡ n = omega arith in
    rw (kred-pos n) (
      subst (λ m. Lifted m (kred (sub_ℕ (13 * (n % 256)) (n / 256)))) parts
        (Lifted-parts (n / 256) (n % 256) (omega arith) (omega arith)))

-- For a product below 2 ** 24 the normalised K2-RED chain returns the remainder of 169 times it.
pub kred2_norm_lem : (n : ℕ) → n < 2 ^ 24 → kred2_norm (pos n) ≡ pos (169 * n % 3329)
unfolding kred2_norm
kred2_norm_lem n h =
    let lifted : Lifted n (k2red (pos n)) = k2red-Lifted n h in
    kem_normalize_lem (k2red (pos n)) lifted.lift lifted.lifts lifted.small ∙ ap pos lifted.same

-- For every product below 2 ** 24, `reduce_kem` returns its remainder by 3329.
pub reduce_kem_lem : (n : ℕ) → n < 2 ^ 24 → reduce_kem (pos n) ≡ pos (n % 3329)
unfolding reduce_kem ◌*ℤ◌
reduce_kem_lem n h =
    ground (arith, kred2_norm_lem n h, kred2_norm_lem (169 * n % 3329 * 1353) (omega arith))
