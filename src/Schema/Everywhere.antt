-- ===== src/Schema/Everywhere.antt =====
-- The checker accepts exactly the documents that meet their schemas everywhere.
use lca.Prelude.{
  Bool, ℤ, ◌≡◌, ◌↔◌, inl, inr, refl, sym, subst, ℕ, ◌+◌, [], ◌∷◌, ◌++◌, Option, none, some, ok,
  ◌>>◌, pos, length,
}
use lca.Floats.{Floats}
use lca.Text.{Text, codes}
use lca.Json.{
  Json, null, bool, int, float, string, array, object, Items, nil, item, Fields, end, field, get,
  count_items, whole, real,
}
use lca.Schema.Defs.{
  Place, key, index, Checked, properties_of, item_schema, below_minimum, string_too_short,
  array_too_short, validate_against_schema, validate_items, validate_fields,
}
use lca.Schema.Keywords.{check_bound-fits, check_required-fits, check_additional-fits}
use lca.Schema.Local.{own_checks, validate-join}
use lca.Schema.Places.{
  IsItem, IsField, item_rule, property_in, property_rule, Below, here, prepend, FitsOwn,
  MeetsEverywhere,
}
use lca.Schema.Inside.{check_field, check_items, accepted-MeetsEverywhere}

module _ (F : Floats) where
  open F use {Float}

  Below-MeetsEverywhere :
      {p s y u : Json Float} → MeetsEverywhere F p s → Below F p s y u → MeetsEverywhere F y u
  Below-MeetsEverywhere m b x t r = m x t (prepend F b r)

  then_ok : {r q : Checked F} → r ≡ ok tt → q ≡ ok tt → (r >> q) ≡ ok tt
  then_ok e h = rw e h

  items-join :
      (x : Json Float) (xs : Items Float) (t : Json Float) (path : Place) (i : ℕ)
      → validate_against_schema F x t (path ++ index i ∷ []) ≡ ok tt
      → validate_items F xs t path (i + 1) ≡ ok tt
      → validate_items F (item x xs) t path i ≡ ok tt
  unfolding validate_against_schema
  items-join x xs t path i h hs = then_ok h hs

  fields-join :
      (k : Text) (v : Json Float) (fs properties : Fields Float) (path : Place)
      → ((s : Json Float)
          → get k properties ≡ some s
          → validate_against_schema F v s (path ++ key k ∷ []) ≡ ok tt)
      → validate_fields F fs properties path ≡ ok tt
      → validate_fields F (field k v fs) properties path ≡ ok tt
  unfolding validate_against_schema
  fields-join k v fs properties path h hs = then_ok (checked (get k properties) h) hs
    where
      checked :
          (o : Option (Json Float))
          → ((s : Json Float)
              → o ≡ some s
              → validate_against_schema F v s (path ++ key k ∷ []) ≡ ok tt)
          → check_field F v (path ++ key k ∷ []) o ≡ ok tt
      checked none c = refl
      checked (some s) c = c s refl

  nil-accepted : (t : Json Float) (path : Place) (i : ℕ) → validate_items F nil t path i ≡ ok tt
  unfolding validate_against_schema
  nil-accepted t path i = refl

  end-accepted :
      (properties : Fields Float) (path : Place) → validate_fields F end properties path ≡ ok tt
  unfolding validate_against_schema
  end-accepted properties path = refl

  array-join :
      (xs : Items Float) (k : Fields Float) (path : Place)
      → FitsOwn F (array xs) k
      → ((t : Json Float)
          → item_schema F (get (codes "items") k) ≡ some t
          → validate_items F xs t path 0 ≡ ok tt)
      → own_checks F (array xs) k path ≡ ok tt
  unfolding own_checks
  array-join xs k path o h =
      then_ok ((check_bound-fits F (whole (pos (count_items xs))) _ (array_too_short path)).1 o)
        (checked (item_schema F (get (codes "items") k)) h)
    where
      checked :
          (r : Option (Json Float))
          → ((t : Json Float) → r ≡ some t → validate_items F xs t path 0 ≡ ok tt)
          → check_items F xs path r ≡ ok tt
      checked none c = refl
      checked (some t) c = c t refl

  object-join :
      (fs k : Fields Float) (path : Place)
      → FitsOwn F (object fs) k
      → ((properties : Fields Float)
          → properties_of F (get (codes "properties") k) ≡ ok properties
          → validate_fields F fs properties path ≡ ok tt)
      → own_checks F (object fs) k path ≡ ok tt
  unfolding own_checks
  object-join fs k path (required, (properties, given, closed)) h =
      then_ok ((check_required-fits F fs path _).1 required) (
        rw given
          (then_ok ((check_additional-fits F fs properties path _).1 closed) (h properties given)))

  null-accepted : (k : Fields Float) (path : Place) → own_checks F null k path ≡ ok tt
  unfolding own_checks
  null-accepted k path = refl

  bool-accepted :
      (b : Bool) (k : Fields Float) (path : Place) → own_checks F (bool b) k path ≡ ok tt
  unfolding own_checks
  bool-accepted b k path = refl

  int-accepted :
      (n : ℤ) (k : Fields Float) (path : Place)
      → FitsOwn F (int n) k
      → own_checks F (int n) k path ≡ ok tt
  unfolding own_checks
  int-accepted n k path = (check_bound-fits F (whole n) _ (below_minimum path)).1

  float-accepted :
      (x : Float) (k : Fields Float) (path : Place)
      → FitsOwn F (float x) k
      → own_checks F (float x) k path ≡ ok tt
  unfolding own_checks
  float-accepted x k path = (check_bound-fits F (real x) _ (below_minimum path)).1

  string-accepted :
      (t : Text) (k : Fields Float) (path : Place)
      → FitsOwn F (string t) k
      → own_checks F (string t) k path ≡ ok tt
  unfolding own_checks
  string-accepted t k path =
      (check_bound-fits F (whole (pos (length t))) _ (string_too_short path)).1

  mutual
    meets-accepted :
        (p s : Json Float) (path : Place)
        → MeetsEverywhere F p s
        → validate_against_schema F p s path ≡ ok tt
    meets-accepted null s path m =
        validate-join F null s path (m _ _ here) (λ k e o. null-accepted k path)
    meets-accepted (bool b) s path m =
        validate-join F (bool b) s path (m _ _ here) (λ k e o. bool-accepted b k path)
    meets-accepted (int n) s path m =
        validate-join F (int n) s path (m _ _ here) (λ k e o. int-accepted n k path o)
    meets-accepted (float x) s path m =
        validate-join F (float x) s path (m _ _ here) (λ k e o. float-accepted x k path o)
    meets-accepted (string t) s path m =
        validate-join F (string t) s path (m _ _ here) (λ k e o. string-accepted t k path o)
    meets-accepted (array xs) s path m = validate-join F (array xs) s path (m _ _ here) (λ k e o.
        array-join xs k path o (λ t g.
          meets-items xs t path 0 (λ x mem.
            Below-MeetsEverywhere m (mem, subst (λ z. item_rule F z ≡ some t) (sym e) g))))
    meets-accepted (object fs) s path m = validate-join F (object fs) s path (m _ _ here) (λ k e o.
        object-join fs k path o (λ properties given.
          meets-fields fs properties path (λ name x t mem g. Below-MeetsEverywhere m (
            name,
            mem,
            subst (λ z. property_rule F z name ≡ some t) (sym e)
                (subst (λ r. property_in F name r ≡ some t) (sym given) g),
          ))))

    meets-items :
        (xs : Items Float) (t : Json Float) (path : Place) (i : ℕ)
        → ((x : Json Float) → IsItem F x xs → MeetsEverywhere F x t)
        → validate_items F xs t path i ≡ ok tt
    meets-items nil t path i m = nil-accepted t path i
    meets-items (item x xs) t path i m =
        items-join x xs t path i (meets-accepted x t (path ++ index i ∷ []) (m x (inl refl)))
          (meets-items xs t path (i + 1) (λ y mem. m y (inr mem)))

    meets-fields :
        (fs properties : Fields Float) (path : Place)
        → ((name : Text) (x t : Json Float)
            → IsField F name x fs
            → get name properties ≡ some t
            → MeetsEverywhere F x t)
        → validate_fields F fs properties path ≡ ok tt
    meets-fields end properties path m = end-accepted properties path
    meets-fields (field k v fs) properties path m =
        fields-join k v fs properties path
          (λ s g. meets-accepted v s (path ++ key k ∷ []) (m k v s (inl (refl, refl)) g))
          (meets-fields fs properties path (λ name x t mem g. m name x t (inr mem) g))

  -- The checker accepts a document under a schema, at any place, exactly when every value inside the
  -- document, itself included, meets the schema that applies to it there. To an item of an array
  -- applies the `items` of the array's schema where that is a dictionary, to the value of a key the
  -- one that `properties` gives for the key, to others none. A value meets a schema that is a
  -- dictionary whose `const`, `enum`, `type`, `minimum`, `minLength`, `minItems`, `required`,
  -- `properties` and `additionalProperties` are well formed as far as they are read and hold of it.
  pub validate-accepted_everywhere_iff :
      (p s : Json Float) (path : Place)
      → (validate_against_schema F p s path ≡ ok tt) ↔ MeetsEverywhere F p s
  validate-accepted_everywhere_iff p s path =
      (accepted-MeetsEverywhere F p s path, meets-accepted p s path)
