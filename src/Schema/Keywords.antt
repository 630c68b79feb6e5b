-- ===== src/Schema/Keywords.antt =====
-- What the keywords of a schema say of one value, apart from what stands inside it.
use lca.Prelude.{◌≡◌, ◌↔◌, refl, true, false, List, [], ◌∷◌, Option, none, some, ok, arith}
use lca.Floats.{Floats}
use lca.Text.{codes}
use lca.Json.{
  Json, null, bool, int, float, string, array, object, Fields, end, field, get, has_key, to_list,
  Number, whole, real, number_of, less, json_eq, int_of_bool,
}
use lca.Schema.Defs.{
  Place, SchemaError, any_type, is_among, check_const, check_enum, check_types, check_type,
  check_bound, check_names, check_required, check_all_known, check_additional, keywords_for,
}

module _ (F : Floats) where
  open F use {Float}

  -- A keyword that is given has a value with the property.
  abbrev pub IfGiven : Option (Json Float) → (Json Float → Type 0) → Type 0
  IfGiven none P = Unit
  IfGiven (some v) P = P v

  abbrev pub IsInEnum : Json Float → Json Float → Type 0
  IsInEnum p (array vs) = is_among F p (to_list vs) ≡ true
  IsInEnum p v = ⊥

  -- One of the names is a type of the value, and those before it are types.
  abbrev pub IsOfSome : Json Float → List (Json Float) → Type 0
  IsOfSome p names = any_type F p names ≡ ok true

  abbrev pub HasType : Json Float → Json Float → Type 0
  HasType p null = Unit
  HasType p (string name) = IsOfSome p (string name ∷ [])
  HasType p (array names) = IsOfSome p (to_list names)
  HasType p v = ⊥

  -- The keywords that are read for every value.
  abbrev pub FitsAll : Json Float → Fields Float → Type 0
  FitsAll p keywords =
      IfGiven (get (codes "const") keywords) (λ v. json_eq F p v ≡ true)
      × IfGiven (get (codes "enum") keywords) (IsInEnum p)
      × IfGiven (get (codes "type") keywords) (HasType p)

  -- A bound is null or a number that is not above.
  abbrev pub Bounds : Number F → Json Float → Type 0
  Bounds n null = Unit
  Bounds n v = (m : Number F) × (number_of F v ≡ some m) × (less F n m ≡ false)

  check_const-fits :
      (p : Json Float) (path : Place) (o : Option (Json Float))
      → (check_const F p path o ≡ ok tt) ↔ IfGiven o (λ v. json_eq F p v ≡ true)
  check_const-fits p path none = (λ h. tt, λ h. refl)
  check_const-fits p path (some v) = (λ h. ground arith, λ h. ground arith)

  check_enum-fits :
      (p : Json Float) (path : Place) (o : Option (Json Float))
      → (check_enum F p path o ≡ ok tt) ↔ IfGiven o (IsInEnum p)
  check_enum-fits p path none = (λ h. tt, λ h. refl)
  check_enum-fits p path (some (array vs)) = (λ h. ground arith, λ h. ground arith)
  check_enum-fits p path (some null) = (λ h. absurd (cc), λ h. absurd h)
  check_enum-fits p path (some (bool b)) = (λ h. absurd (cc), λ h. absurd h)
  check_enum-fits p path (some (int n)) = (λ h. absurd (cc), λ h. absurd h)
  check_enum-fits p path (some (float x)) = (λ h. absurd (cc), λ h. absurd h)
  check_enum-fits p path (some (string s)) = (λ h. absurd (cc), λ h. absurd h)
  check_enum-fits p path (some (object fs)) = (λ h. absurd (cc), λ h. absurd h)

  check_types-fits :
      (p : Json Float) (path : Place) (names : List (Json Float))
      → (check_types F p path names ≡ ok tt) ↔ IsOfSome p names
  check_types-fits p path names = (λ h. ground arith, λ h. ground arith)

  check_type-fits :
      (p : Json Float) (path : Place) (o : Option (Json Float))
      → (check_type F p path o ≡ ok tt) ↔ IfGiven o (HasType p)
  check_type-fits p path none = (λ h. tt, λ h. refl)
  check_type-fits p path (some null) = (λ h. tt, λ h. refl)
  check_type-fits p path (some (string name)) = check_types-fits p path (string name ∷ [])
  check_type-fits p path (some (array names)) = check_types-fits p path (to_list names)
  check_type-fits p path (some (bool b)) = (λ h. absurd (cc), λ h. absurd h)
  check_type-fits p path (some (int n)) = (λ h. absurd (cc), λ h. absurd h)
  check_type-fits p path (some (float x)) = (λ h. absurd (cc), λ h. absurd h)
  check_type-fits p path (some (object fs)) = (λ h. absurd (cc), λ h. absurd h)

  pub keywords_for-fits :
      (p : Json Float) (keywords : Fields Float) (path : Place)
      → keywords_for F p (object keywords) path ≡ ok keywords
      → FitsAll p keywords
  unfolding keywords_for
  keywords_for-fits p keywords path h = (
    (check_const-fits p path _).0 (ground arith),
    (check_enum-fits p path _).0 (ground arith),
    (check_type-fits p path _).0 (ground arith),
  )

  pub fits-keywords_for :
      (p : Json Float) (keywords : Fields Float) (path : Place)
      → FitsAll p keywords
      → keywords_for F p (object keywords) path ≡ ok keywords
  unfolding keywords_for
  fits-keywords_for p keywords path (c, e, t) =
      rw
        (
          (check_const-fits p path _).1 c,
          (check_enum-fits p path _).1 e,
          (check_type-fits p path _).1 t,
        )
        refl

  pub check_bound-fits :
      (n : Number F) (o : Option (Json Float)) (e : SchemaError F)
      → (check_bound F n o e ≡ ok tt) ↔ IfGiven o (Bounds n)
  check_bound-fits n none e = (λ h. tt, λ h. refl)
  check_bound-fits n (some null) e = (λ h. tt, λ h. refl)
  check_bound-fits n (some (bool b)) e =
      (λ h. (whole (int_of_bool b), refl, ground arith), λ h. ground arith)
  check_bound-fits n (some (int m)) e = (λ h. (whole m, refl, ground arith), λ h. ground arith)
  check_bound-fits n (some (float x)) e = (λ h. (real x, refl, ground arith), λ h. ground arith)
  check_bound-fits n (some (string s)) e = (λ h. absurd (cc), λ h. absurd (ground arith))
  check_bound-fits n (some (array xs)) e = (λ h. absurd (cc), λ h. absurd (ground arith))
  check_bound-fits n (some (object fs)) e = (λ h. absurd (cc), λ h. absurd (ground arith))

  -- Every name of `required` is a text and a key.
  abbrev pub HasKeys : Fields Float → List (Json Float) → Type 0
  HasKeys fs [] = Unit
  HasKeys fs (string name ∷ names) = (has_key name fs ≡ true) × HasKeys fs names
  HasKeys fs (v ∷ names) = ⊥

  abbrev pub Requires : Fields Float → Json Float → Type 0
  Requires fs (array names) = HasKeys fs (to_list names)
  Requires fs v = ⊥

  check_names-fits :
      (fs : Fields Float) (path : Place) (names : List (Json Float))
      → (check_names F fs path names ≡ ok tt) ↔ HasKeys fs names
  check_names-fits fs path [] = (λ h. tt, λ h. refl)
  check_names-fits fs path (string name ∷ names) = (
    λ h. (ground arith, (check_names-fits fs path names).0 (ground arith)),
    λ h. ground (arith, h.0, (check_names-fits fs path names).1 h.1),
  )
  check_names-fits fs path (null ∷ names) = (λ h. absurd (cc), λ h. absurd h)
  check_names-fits fs path (bool b ∷ names) = (λ h. absurd (cc), λ h. absurd h)
  check_names-fits fs path (int n ∷ names) = (λ h. absurd (cc), λ h. absurd h)
  check_names-fits fs path (float x ∷ names) = (λ h. absurd (cc), λ h. absurd h)
  check_names-fits fs path (array xs ∷ names) = (λ h. absurd (cc), λ h. absurd h)
  check_names-fits fs path (object gs ∷ names) = (λ h. absurd (cc), λ h. absurd h)

  pub check_required-fits :
      (fs : Fields Float) (path : Place) (o : Option (Json Float))
      → (check_required F fs path o ≡ ok tt) ↔ IfGiven o (Requires fs)
  check_required-fits fs path none = (λ h. tt, λ h. refl)
  check_required-fits fs path (some (array names)) = check_names-fits fs path (to_list names)
  check_required-fits fs path (some null) = (λ h. absurd (cc), λ h. absurd h)
  check_required-fits fs path (some (bool b)) = (λ h. absurd (cc), λ h. absurd h)
  check_required-fits fs path (some (int n)) = (λ h. absurd (cc), λ h. absurd h)
  check_required-fits fs path (some (float x)) = (λ h. absurd (cc), λ h. absurd h)
  check_required-fits fs path (some (string s)) = (λ h. absurd (cc), λ h. absurd h)
  check_required-fits fs path (some (object gs)) = (λ h. absurd (cc), λ h. absurd h)

  -- Every key is a property, where additional ones are forbidden.
  abbrev pub KnowsKeys : Fields Float → Fields Float → Type 0
  KnowsKeys end properties = Unit
  KnowsKeys (field k v fs) properties = (has_key k properties ≡ true) × KnowsKeys fs properties

  abbrev pub Closed : Fields Float → Fields Float → Option (Json Float) → Type 0
  Closed fs properties (some (bool false)) = KnowsKeys fs properties
  Closed fs properties v = Unit

  check_all_known-fits :
      (fs properties : Fields Float) (path : Place)
      → (check_all_known F fs properties path ≡ ok tt) ↔ KnowsKeys fs properties
  check_all_known-fits end properties path = (λ h. tt, λ h. refl)
  check_all_known-fits (field k v fs) properties path = (
    λ h. (ground arith, (check_all_known-fits fs properties path).0 (ground arith)),
    λ h. ground (arith, h.0, (check_all_known-fits fs properties path).1 h.1),
  )

  pub check_additional-fits :
      (fs properties : Fields Float) (path : Place) (o : Option (Json Float))
      → (check_additional F fs properties path o ≡ ok tt) ↔ Closed fs properties o
  check_additional-fits fs properties path none = (λ h. tt, λ h. refl)
  check_additional-fits fs properties path (some (bool false)) =
      check_all_known-fits fs properties path
  check_additional-fits fs properties path (some (bool true)) = (λ h. tt, λ h. refl)
  check_additional-fits fs properties path (some null) = (λ h. tt, λ h. refl)
  check_additional-fits fs properties path (some (int n)) = (λ h. tt, λ h. refl)
  check_additional-fits fs properties path (some (float x)) = (λ h. tt, λ h. refl)
  check_additional-fits fs properties path (some (string s)) = (λ h. tt, λ h. refl)
  check_additional-fits fs properties path (some (array xs)) = (λ h. tt, λ h. refl)
  check_additional-fits fs properties path (some (object gs)) = (λ h. tt, λ h. refl)
