-- ===== src/Schema/Local.antt =====
-- The checks of one value, and of what stands directly inside it.
use lca.Prelude.{
  ◌≡◌, refl, sym, subst, ◌∙◌, none, some, ok, ◌>>=◌, ◌>>◌, pos, length, arith, bind_ok, both_ok,
}
use lca.Floats.{Floats}
use lca.Text.{codes}
use lca.Json.{
  Json, null, bool, int, float, string, array, object, Fields, get, count_items, whole, real,
}
use lca.Schema.Defs.{
  Place, Checked, check_bound, check_required, check_additional, properties_of, item_schema,
  keywords_for, below_minimum, string_too_short, array_too_short, validate_against_schema,
  validate_items, validate_fields,
}
use lca.Schema.Keywords.{
  FitsAll, keywords_for-fits, fits-keywords_for, check_bound-fits, check_required-fits,
  check_additional-fits,
}
use lca.Schema.Places.{FitsOwn, Meets}

module _ (F : Floats) where
  open F use {Float}

  -- The checks that follow those of every value.
  unfoldable pub own_checks : Json Float → Fields Float → Place → Checked F
  own_checks (int n) s path = check_bound F (whole n) (get (codes "minimum") s) (below_minimum path)
  own_checks (float x) s path =
      check_bound F (real x) (get (codes "minimum") s) (below_minimum path)
  own_checks (string t) s path =
      check_bound F (whole (pos (length t))) (get (codes "minLength") s) (string_too_short path)
  own_checks (array xs) s path =
      check_bound F (whole (pos (count_items xs))) (get (codes "minItems") s) (array_too_short path)
      >> elim (item_schema F (get (codes "items") s)) [
        | none ↦ ok tt
        | some inner_schema ↦ validate_items F xs inner_schema path 0
      ]
  own_checks (object fs) s path = do
    check_required F fs path (get (codes "required") s)
    properties ← properties_of F (get (codes "properties") s)
    check_additional F fs properties path (get (codes "additionalProperties") s)
    validate_fields F fs properties path
  own_checks v s path = ok tt

  validate-own_checks :
      (p s : Json Float) (path : Place)
      → validate_against_schema F p s path ≡ (keywords_for F p s path >>= λ k. own_checks p k path)
  unfolding validate_against_schema own_checks
  validate-own_checks null s path = refl
  validate-own_checks (bool b) s path = refl
  validate-own_checks (int n) s path = refl
  validate-own_checks (float x) s path = refl
  validate-own_checks (string t) s path = refl
  validate-own_checks (array xs) s path = refl
  validate-own_checks (object fs) s path = refl

  keywords_same :
      (p : Json Float) (k j : Fields Float) (path : Place)
      → keywords_for F p (object k) path ≡ ok j
      → j ≡ k
  unfolding keywords_for
  keywords_same p k j path h = ground arith

  -- A schema whose checks pass is a dictionary, of whose keywords those for every value fit.
  keywords-split :
      (p s : Json Float) (path : Place) (f : Fields Float → Checked F)
      → (keywords_for F p s path >>= f) ≡ ok tt
      → (k : Fields Float) × (s ≡ object k) × FitsAll F p k × (f k ≡ ok tt)
  keywords-split p (object k) path f h =
      let (j, e, rest) = bind_ok (keywords_for F p (object k) path) f tt h in
      let same = keywords_same p k j path e in
      (
        k,
        refl,
        keywords_for-fits F p k path (subst (λ x. keywords_for F p (object k) path ≡ ok x) same e),
        subst (λ x. f x ≡ ok tt) same rest,
      )
  keywords-split p null path f h = absurd (unfold keywords_for in cc)
  keywords-split p (bool b) path f h = absurd (unfold keywords_for in cc)
  keywords-split p (int n) path f h = absurd (unfold keywords_for in cc)
  keywords-split p (float x) path f h = absurd (unfold keywords_for in cc)
  keywords-split p (string t) path f h = absurd (unfold keywords_for in cc)
  keywords-split p (array xs) path f h = absurd (unfold keywords_for in cc)

  pub validate-split :
      (p s : Json Float) (path : Place)
      → validate_against_schema F p s path ≡ ok tt
      → (k : Fields Float) × (s ≡ object k) × FitsAll F p k × (own_checks p k path ≡ ok tt)
  validate-split p s path h =
      keywords-split p s path (λ k. own_checks p k path) (sym (validate-own_checks p s path) ∙ h)

  pub validate-join :
      (p s : Json Float) (path : Place)
      → Meets F p s
      → ((k : Fields Float) → s ≡ object k → FitsOwn F p k → own_checks p k path ≡ ok tt)
      → validate_against_schema F p s path ≡ ok tt
  validate-join p (object k) path (all, own) rest =
      validate-own_checks p (object k) path
      ∙ rw (fits-keywords_for F p k path all) (rest k refl own)
  validate-join p null path m rest = absurd m
  validate-join p (bool b) path m rest = absurd m
  validate-join p (int n) path m rest = absurd m
  validate-join p (float x) path m rest = absurd m
  validate-join p (string t) path m rest = absurd m
  validate-join p (array xs) path m rest = absurd m

  pub own_checks-FitsOwn :
      (p : Json Float) (k : Fields Float) (path : Place)
      → own_checks p k path ≡ ok tt
      → FitsOwn F p k
  unfolding own_checks
  own_checks-FitsOwn null k path h = tt
  own_checks-FitsOwn (bool b) k path h = tt
  own_checks-FitsOwn (int n) k path h = (check_bound-fits F (whole n) _ (below_minimum path)).0 h
  own_checks-FitsOwn (float x) k path h = (check_bound-fits F (real x) _ (below_minimum path)).0 h
  own_checks-FitsOwn (string t) k path h =
      (check_bound-fits F (whole (pos (length t))) _ (string_too_short path)).0 h
  own_checks-FitsOwn (array xs) k path h =
      (check_bound-fits F (whole (pos (count_items xs))) _ (array_too_short path)).0
        (both_ok
          (check_bound F (whole (pos (count_items xs))) (get (codes "minItems") k)
            (array_too_short path))
          _ h).0
  own_checks-FitsOwn (object fs) k path h =
      let (required, h1) = both_ok (check_required F fs path (get (codes "required") k)) _ h in
      let (properties, e, h2) = bind_ok (properties_of F (get (codes "properties") k)) _ tt h1 in
      let (additional, _) =
        both_ok (check_additional F fs properties path (get (codes "additionalProperties") k)) _
          h2 in
      (
        (check_required-fits F fs path _).0 required,
        (properties, e, (check_additional-fits F fs properties path _).0 additional),
      )
