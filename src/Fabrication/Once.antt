-- ===== src/Fabrication/Once.antt =====
-- Values that cover a list of texts without repeating one hold each text once.
use Prim.Native.String.{String}
use lca.Prelude.{
  ℕ, suc, ◌≤◌, ◌≡◌, refl, sym, subst, ap, true, List, [], ◌∷◌, ok, arith, All, if◌then◌else◌,
  Bool-cases, inl, inr,
}
use lca.Floats.{Floats}
use lca.Text.{Text, codes, text_eq→eq, text_eq_refl}
use lca.Vcd.{has_text}
use lca.Json.{Json, null, bool, int, float, string, array, object, json_eq}
use lca.Fabrication.Access.{
  Problem, says, is_in, duplicates_after, duplicate_values, expect_unique, all_in, same_set, texts,
  all_hashable,
}

module _ (F : Floats) where
  open F use {Float}

  is_text-string : (v : Json Float) (t : Text) → json_eq F v (string t) ≡ true → v ≡ string t
  unfolding json_eq
  is_text-string (string s) t h = ap (λ (x : Text). string x) (text_eq→eq s t h)
  is_text-string null t h = absurd (cc)
  is_text-string (bool b) t h = absurd (cc)
  is_text-string (int n) t h = absurd (cc)
  is_text-string (float x) t h = absurd (cc)
  is_text-string (array xs) t h = absurd (cc)
  is_text-string (object fs) t h = absurd (cc)

  string-is_text : (t : Text) (v : Json Float) → json_eq F (string t) v ≡ true → v ≡ string t
  unfolding json_eq
  string-is_text t (string s) h = ap (λ (x : Text). string x) (sym (text_eq→eq t s h))
  string-is_text t null h = absurd (cc)
  string-is_text t (bool b) h = absurd (cc)
  string-is_text t (int n) h = absurd (cc)
  string-is_text t (float x) h = absurd (cc)
  string-is_text t (array xs) h = absurd (cc)
  string-is_text t (object fs) h = absurd (cc)

  string_same : (t : Text) → json_eq F (string t) (string t) ≡ true
  unfolding json_eq
  string_same t = text_eq_refl t

  -- How many of the values are the text.
  abbrev pub occurrences : Text → List (Json Float) → ℕ
  occurrences t [] = 0
  occurrences t (v ∷ vs) =
      if json_eq F v (string t) then suc (occurrences t vs) else occurrences t vs

  rest-none :
      (seen : List (Json Float)) (v : Json Float) (vs : List (Json Float))
      → duplicates_after F seen (v ∷ vs) ≡ []
      → duplicates_after F (v ∷ seen) vs ≡ []
  unfolding duplicates_after
  rest-none seen v vs d = ground arith

  seen-none :
      (t : Text) (seen values : List (Json Float))
      → is_in F (string t) seen ≡ true
      → duplicates_after F seen values ≡ []
      → occurrences t values ≡ 0
  unfolding duplicates_after is_in
  seen-none t seen [] s d = refl
  seen-none t seen (v ∷ vs) s d = elim (Bool-cases (json_eq F v (string t))) [
    | inl e ↦
        absurd (ground (arith, subst (λ x. is_in F x seen ≡ true) (sym (is_text-string v t e)) s))
    | inr e ↦ ground (arith, seen-none t (v ∷ seen) vs (ground (arith, s)) (rest-none seen v vs d))
  ]

  unique-once :
      (t : Text) (seen values : List (Json Float))
      → duplicates_after F seen values ≡ []
      → occurrences t values ≤ 1
  unfolding duplicates_after is_in
  unique-once t seen [] d = omega arith
  unique-once t seen (v ∷ vs) d = elim (Bool-cases (json_eq F v (string t))) [
    | inl e ↦ ground (arith, seen-none t (v ∷ seen) vs (seen_next e) (rest-none seen v vs d))
    | inr e ↦ ground (arith, unique-once t (v ∷ seen) vs (rest-none seen v vs d))
  ]
    where
      seen_next : json_eq F v (string t) ≡ true → is_in F (string t) (v ∷ seen) ≡ true
      seen_next e = rw (is_text-string v t e, string_same t) refl

  is_in-occurs :
      (t : Text) (values : List (Json Float))
      → is_in F (string t) values ≡ true
      → 1 ≤ occurrences t values
  unfolding is_in
  is_in-occurs t [] h = absurd (cc)
  is_in-occurs t (v ∷ vs) h = elim (Bool-cases (json_eq F (string t) v)) [
    | inl e ↦ rw (string-is_text t v e, string_same t) (omega arith)
    | inr e ↦ ground (arith, is_in-occurs t vs (ground arith))
  ]

  -- One of a list of texts.
  abbrev pub IsOneOf : List Text → Json Float → Type 0
  IsOneOf expected v = (t : Text) × (v ≡ string t) × (has_text t expected ≡ true)

  -- Each expected text stands once among the values, and there are no other values.
  pub record AreExactly (expected : List Text) (values : List (Json Float)) : Type 0 where
    pub once : All (λ (t : Text). occurrences t values ≡ 1) expected
    pub known : All (IsOneOf expected) values

  IsOneOf-more : (t : Text) (ts : List Text) (v : Json Float) → IsOneOf ts v → IsOneOf (t ∷ ts) v
  unfolding has_text
  IsOneOf-more t ts v (s, e, h) = (s, e, ground (arith, h))

  is_in-IsOneOf :
      (expected : List Text) (v : Json Float)
      → is_in F v (texts F expected) ≡ true
      → IsOneOf expected v
  unfolding is_in has_text
  is_in-IsOneOf [] v h = absurd (cc)
  is_in-IsOneOf (t ∷ ts) v h = elim (Bool-cases (json_eq F v (string t))) [
    | inl e ↦ (t, is_text-string v t e, ground (arith, text_eq_refl t))
    | inr e ↦ IsOneOf-more t ts v (is_in-IsOneOf ts v (ground arith))
  ]

  all_in-known :
      (expected : List Text) (values : List (Json Float))
      → all_in F values (texts F expected) ≡ true
      → All (IsOneOf expected) values
  unfolding all_in
  all_in-known expected [] h = tt
  all_in-known expected (v ∷ vs) h =
      (is_in-IsOneOf expected v (ground arith), all_in-known expected vs (ground arith))

  all_in-once :
      (expected : List Text) (values : List (Json Float))
      → duplicates_after F [] values ≡ []
      → all_in F (texts F expected) values ≡ true
      → All (λ (t : Text). occurrences t values ≡ 1) expected
  unfolding all_in
  all_in-once [] values d h = tt
  all_in-once (t ∷ ts) values d h = (
    omega (arith, unique-once t [] values d, is_in-occurs t values (ground arith)),
    all_in-once ts values d (ground arith),
  )

  abbrev no_problems : List (Problem F)
  no_problems = []

  emptied :
      (message : String) (repeated : List (Json Float))
      → (elim repeated [ [] ↦ [] | v ∷ vs ↦ says (codes message) ∷ [] ]) ≡ no_problems
      → repeated ≡ []
  emptied message [] h = refl
  emptied message (v ∷ vs) h = absurd (cc)

  -- What the two checks of a list of names mean.
  pub checked-AreExactly :
      (expected : List Text) (values : List (Json Float)) (message : String)
      → same_set F values (texts F expected) ≡ ok true
      → expect_unique F values message ≡ ok []
      → AreExactly expected values
  checked-AreExactly expected values message same unique = record {
    once = all_in-once expected values no_repeat (unfold all_in in ground arith);
    known = all_in-known expected values (unfold all_in in ground arith);
  }
    where
      no_repeat : duplicates_after F [] values ≡ []
      no_repeat =
          unfold duplicate_values in
          elim (Bool-cases (all_hashable F values)) [
            | inl fine ↦ emptied message (duplicates_after F [] values) (ground arith)
            | inr bad ↦ absurd (ground arith)
          ]
