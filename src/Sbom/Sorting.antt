-- ===== src/Sbom/Sorting.antt =====
-- What `sorted` and the filters of the document keep.
use mathlib.Core.List.{Perm}
use mathlib.Core.List.Perm
use lca.Prelude.{◌≤◌, ◌≡◌, refl, Bool, true, false, List, [], ◌∷◌, arith, All, Bool-cases, inl, inr}
use lca.Text.{Text, text_eq→eq, text_eq_refl, starts_with}
use lca.Vcd.{has_text}
use lca.Sbom.Entry.{insert_sorted, sorted}
use lca.Sbom.Document.{count, repeated, as_set, with_prefix}

module _ {A : Type 0} (before : A → A → Bool) where
  insert_sorted-Perm : (x : A) (xs : List A) → Perm (insert_sorted before x xs) (x ∷ xs)
  unfolding insert_sorted
  insert_sorted-Perm x [] = Perm.refl (x ∷ [])
  insert_sorted-Perm x (y ∷ ys) = elim (Bool-cases (before y x)) [
    | inl earlier ↦
        rw earlier (Perm.trans (Perm.cons y (insert_sorted-Perm x ys)) (Perm.swap x y ys))
    | inr later ↦ rw later (Perm.refl (x ∷ y ∷ ys))
  ]

  pub sorted-Perm : (xs : List A) → Perm (sorted before xs) xs
  unfolding sorted
  sorted-Perm [] = Perm.refl []
  sorted-Perm (x ∷ xs) =
      Perm.trans (insert_sorted-Perm x (sorted before xs)) (Perm.cons x (sorted-Perm xs))

  insert_sorted-All :
      (P : A → Type 0) (x : A) (xs : List A) → P x → All P xs → All P (insert_sorted before x xs)
  unfolding insert_sorted
  insert_sorted-All P x [] h k = (h, tt)
  insert_sorted-All P x (y ∷ ys) h (a, k) = elim (Bool-cases (before y x)) [
    | inl earlier ↦ rw earlier (a, insert_sorted-All P x ys h k)
    | inr later ↦ rw later (h, (a, k))
  ]

  pub sorted-All : (P : A → Type 0) (xs : List A) → All P xs → All P (sorted before xs)
  unfolding sorted
  sorted-All P [] h = tt
  sorted-All P (x ∷ xs) (h, k) = insert_sorted-All P x (sorted before xs) h (sorted-All P xs k)

-- No reference stands twice.
abbrev pub Distinct : List Text → Type 0
Distinct [] = Unit
Distinct (t ∷ ts) = (has_text t ts ≡ false) × Distinct ts

-- Each of some references is one of a list.
abbrev pub AreAmong : List Text → List Text → Type 0
AreAmong refs ts = All (λ (t : Text). has_text t refs ≡ true) ts

AreAmong-cons : (x : Text) (refs ts : List Text) → AreAmong refs ts → AreAmong (x ∷ refs) ts
unfolding has_text
AreAmong-cons x refs [] h = tt
AreAmong-cons x refs (t ∷ ts) (a, h) = (ground (arith, a), AreAmong-cons x refs ts h)

pub AreAmong-refl : (refs : List Text) → AreAmong refs refs
unfolding has_text
AreAmong-refl [] = tt
AreAmong-refl (t ∷ ts) = (ground (arith, text_eq_refl t), AreAmong-cons t ts ts (AreAmong-refl ts))

pub as_set-AreAmong : (refs ts : List Text) → AreAmong refs ts → AreAmong refs (as_set ts)
unfolding as_set
as_set-AreAmong refs [] h = tt
as_set-AreAmong refs (t ∷ ts) (a, h) = elim (Bool-cases (has_text t (as_set ts))) [
  | inl again ↦ rw again (as_set-AreAmong refs ts h)
  | inr first ↦ rw first (a, as_set-AreAmong refs ts h)
]

pub with_prefix-AreAmong :
    (refs : List Text) (prefix : Text) (ts : List Text)
    → AreAmong refs ts
    → AreAmong refs (with_prefix prefix ts)
with_prefix-AreAmong refs prefix [] h = tt
with_prefix-AreAmong refs prefix (t ∷ ts) (a, h) = elim (Bool-cases (starts_with prefix t)) [
  | inl kept ↦ rw kept (a, with_prefix-AreAmong refs prefix ts h)
  | inr dropped ↦ rw dropped (with_prefix-AreAmong refs prefix ts h)
]

-- Where no reference is counted twice, none stands twice.
rare : (refs ts : List Text) → repeated refs ts ≡ [] → All (λ (t : Text). count t refs ≤ 1) ts
rare refs [] h = tt
rare refs (t ∷ ts) h = (ground arith, rare refs ts (ground arith))

absent : (t : Text) (ts : List Text) → count t ts ≤ 0 → has_text t ts ≡ false
unfolding has_text
absent t [] h = refl
absent t (x ∷ ts) h = ground (arith, absent t ts (ground arith), text_eq→eq t x, text_eq_refl t)

rarer :
    (x : Text) (refs ts : List Text)
    → All (λ (t : Text). count t (x ∷ refs) ≤ 1) ts
    → All (λ (t : Text). count t refs ≤ 1) ts
rarer x refs [] h = tt
rarer x refs (t ∷ ts) (a, h) = (ground (arith, a), rarer x refs ts h)

rare-Distinct : (ts : List Text) → All (λ (t : Text). count t ts ≤ 1) ts → Distinct ts
rare-Distinct [] h = tt
rare-Distinct (t ∷ ts) (a, h) =
    (absent t ts (ground (arith, text_eq_refl t, a)), rare-Distinct ts (rarer t ts ts h))

pub repeated-Distinct : (ts : List Text) → repeated ts ts ≡ [] → Distinct ts
repeated-Distinct ts h = rare-Distinct ts (rare ts ts h)
