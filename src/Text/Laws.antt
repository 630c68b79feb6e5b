-- ===== src/Text/Laws.antt =====
-- Equality of texts as a test.
use lca.Prelude.{◌≡◌, refl, true, [], ◌∷◌, arith}
use lca.Text.Defs.{Text, text_eq}

pub text_eq→eq : (s t : Text) → text_eq s t ≡ true → s ≡ t
text_eq→eq [] [] h = refl
text_eq→eq [] (y ∷ t) h = absurd (cc)
text_eq→eq (x ∷ s) [] h = absurd (cc)
text_eq→eq (x ∷ s) (y ∷ t) h = ground (arith, text_eq→eq s t)

pub text_eq_refl : (s : Text) → text_eq s s ≡ true
text_eq_refl [] = refl
text_eq_refl (x ∷ s) = ground (arith, text_eq_refl s)
