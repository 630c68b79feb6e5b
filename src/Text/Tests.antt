-- ===== src/Text/Tests.antt =====
-- The text methods at concrete texts.
use lca.Prelude.{pos, sub_ℕ, ◌≡◌, refl, [], ◌∷◌, some, none}
use lca.Text.Defs.{codes, split, int_of, splitlines, find?}

split_runs :
    split (codes " $var wire  1 ! clk $end")
    ≡ codes "$var" ∷ codes "wire" ∷ codes "1" ∷ codes "!" ∷ codes "clk" ∷ codes "$end" ∷ []
unfolding split
split_runs = refl

int_runs :
    (int_of (codes " 1_0 ") ≡ some (pos 10))
    × (int_of (codes "1__0") ≡ none)
    × (int_of (codes "-3") ≡ some (sub_ℕ 0 3))
unfolding int_of
int_runs = (refl, refl, refl)

lines_run : splitlines (10 ∷ 97 ∷ 13 ∷ 10 ∷ 98 ∷ []) ≡ [] ∷ (97 ∷ []) ∷ (98 ∷ []) ∷ []
unfolding splitlines
lines_run = refl

ends_run : (splitlines (97 ∷ 10 ∷ []) ≡ (97 ∷ []) ∷ []) × (splitlines [] ≡ [])
unfolding splitlines
ends_run = (refl, refl)

find_runs : find? (codes "$end") (codes "ab $end c") ≡ some (codes "ab ", codes " c")
unfolding find?
find_runs = refl
