-- ===== src/Trace/Distinct.antt =====
-- Sorting the variables of a dump, and lists of identifiers without repetition.
use mathlib.Core.List.{Perm}
use mathlib.Core.List.Perm
use lca.Prelude.{◌≡◌, refl, false, ◌||◌, List, [], ◌∷◌, ◌++◌, arith, Bool-cases, inl, inr}
use lca.Text.{Text, text_eq, text_eq→eq, text_eq_refl}
use lca.Vcd.{VcdVar, has_text}
use lca.Trace.Signals.{var_lt, insert_var, sort_vars}

insert_var-Perm : (v : VcdVar) (vs : List VcdVar) → Perm (insert_var v vs) (v ∷ vs)
unfolding insert_var
insert_var-Perm v [] = Perm.refl (v ∷ [])
insert_var-Perm v (w ∷ ws) = elim (Bool-cases (var_lt w v)) [
  | inl before ↦ rw before (Perm.trans (Perm.cons w (insert_var-Perm v ws)) (Perm.swap v w ws))
  | inr after ↦ rw after (Perm.refl (v ∷ w ∷ ws))
]

pub sort_vars-Perm : (vs : List VcdVar) → Perm (sort_vars vs) vs
unfolding sort_vars
sort_vars-Perm [] = Perm.refl []
sort_vars-Perm (v ∷ vs) =
    Perm.trans (insert_var-Perm v (sort_vars vs)) (Perm.cons v (sort_vars-Perm vs))

pub has_text-append :
    (t x : Text) (xs : List Text) → has_text t (xs ++ x ∷ []) ≡ has_text t xs || text_eq t x
unfolding has_text
has_text-append t x [] = ground arith
has_text-append t x (y ∷ ys) = ground (arith, has_text-append t x ys)

pub has_text-cons :
    (t x : Text) (xs : List Text) → has_text t (x ∷ xs) ≡ has_text t xs || text_eq t x
unfolding has_text
has_text-cons t x xs = ground arith

-- No text stands twice.
abbrev pub Distinct : List Text → Type 0
Distinct [] = Unit
Distinct (x ∷ xs) = (has_text x xs ≡ false) × Distinct xs

pub Distinct-append :
    (x : Text) (xs : List Text) → has_text x xs ≡ false → Distinct xs → Distinct (xs ++ x ∷ [])
unfolding has_text
Distinct-append x [] h d = (refl, tt)
Distinct-append x (y ∷ ys) h d = (
  rw (has_text-append y x ys) (ground (arith, text_eq→eq y x, text_eq_refl x)),
  Distinct-append x ys (ground arith) d.1,
)
