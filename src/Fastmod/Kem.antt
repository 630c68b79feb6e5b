-- ===== src/Fastmod/Kem.antt =====
-- The K-RED chain of model/fastmod.py for q = 3329.
use lca.Prelude.{
  ℕ, ◌+◌, ◌-◌, ◌*◌, ◌/◌, ◌%◌, ◌^◌, ◌<◌, ℤ, pos, negsuc, ◌+ℤ◌, ◌-ℤ◌, ◌*ℤ◌, ◌≤ℤ◌, shr, sub_ℕ, ◌≡◌,
  arith, and_mask,
}
use lca.Fastmod.Defs.{kred, k2red, q_kem, kem_k, kem_m}

-- One step on the two halves of a number.
pub kred-pos : (n : ℕ) → kred (pos n) ≡ sub_ℕ (13 * (n % 256)) (n / 256)
unfolding kred ◌*ℤ◌ ◌-ℤ◌
kred-pos n = ground (arith, and_mask (pos n) 8)

pub kred-negsuc : (n : ℕ) → kred (negsuc n) ≡ pos (13 * (255 - n % 256) + n / 256 + 1)
unfolding kred ◌*ℤ◌ ◌-ℤ◌
kred-negsuc n = ground (arith, and_mask (negsuc n) 8)

-- A K-RED step multiplies by 13 in the field: it gives 13 times the value less a multiple of 3329, for
-- every integer, and the multiple is the value's high part.
kred_identity : (v : ℤ) → kred v +ℤ shr v kem_m *ℤ q_kem ≡ kem_k *ℤ v
unfolding ◌+ℤ◌ ◌*ℤ◌
kred_identity (pos n) = rw (kred-pos n) (ground arith)
kred_identity (negsuc n) = rw (kred-negsuc n) (ground arith)

-- One K-RED step on a product below 2 ** 24 gives a value from -65535 to 3315.
pub kred_range : (n : ℕ) → n < 2 ^ 24 → (negsuc 65534 ≤ℤ kred (pos n)) × (kred (pos n) ≤ℤ pos 3315)
kred_range n h = rw (kred-pos n) (ground arith)

-- The range of the second step.
kred_range_second :
    (v : ℤ) → negsuc 65534 ≤ℤ v → v ≤ℤ pos 3315 → (negsuc 11 ≤ℤ kred v) × (kred v ≤ℤ pos 3571)
kred_range_second (pos n) lo hi = rw (kred-pos n) (ground arith)
kred_range_second (negsuc n) lo hi = rw (kred-negsuc n) (ground arith)

-- Two K-RED steps on a product below 2 ** 24 give a value from -12 to 3571.
pub k2red_range : (n : ℕ) → n < 2 ^ 24 → (negsuc 11 ≤ℤ k2red (pos n)) × (k2red (pos n) ≤ℤ pos 3571)
unfolding k2red
k2red_range n h = kred_range_second (kred (pos n)) (kred_range n h).0 (kred_range n h).1
