-- ===== src/Schema/Inside.antt =====
-- What the checker has accepted: with a value, all that stands inside it.
use lca.Prelude.{
  ◌≡◌, inl, inr, sym, subst, ℕ, ◌+◌, [], ◌∷◌, ◌++◌, Option, none, some, ok, pos, bind_ok, both_ok,
}
use lca.Floats.{Floats}
use lca.Text.{Text, codes}
use lca.Json.{
  Json, null, bool, int, float, string, array, object, Items, nil, item, Fields, end, field, get,
  count_items, whole,
}
use lca.Schema.Defs.{
  Place, key, index, Checked, check_bound, check_required, check_additional, properties_of,
  array_too_short, validate_against_schema, validate_items, validate_fields,
}
use lca.Schema.Local.{own_checks, validate-split, own_checks-FitsOwn}
use lca.Schema.Places.{
  IsItem, IsField, item_rule, property_in, property_rule, Below, Reaches, here, inside, Meets,
  MeetsEverywhere,
}

module _ (F : Floats) where
  open F use {Float}

  Accepted : Json Float → Json Float → Type 0
  Accepted p s = (path : Place) × (validate_against_schema F p s path ≡ ok tt)

  validate-Meets :
      (p s : Json Float) (path : Place) → validate_against_schema F p s path ≡ ok tt → Meets F p s
  validate-Meets p s path h =
      let (k, e, all, own) = validate-split F p s path h in
      subst (λ x. Meets F p x) (sym e) (all, own_checks-FitsOwn F p k path own)

  -- The check of the items, under the schema for them.
  abbrev pub check_items : Items Float → Place → Option (Json Float) → Checked F
  check_items xs path o = elim o [ none ↦ ok tt | some t ↦ validate_items F xs t path 0 ]

  items-Accepted :
      (xs : Items Float) (t x : Json Float) (path : Place) (i : ℕ)
      → validate_items F xs t path i ≡ ok tt
      → IsItem F x xs
      → Accepted x t
  unfolding Accepted validate_against_schema
  items-Accepted nil t x path i h m = absurd m
  items-Accepted (item y ys) t x path i h (inl e) =
      subst (λ y. Accepted y t) (sym e)
        (
          path ++ index i ∷ [],
          (both_ok (validate_against_schema F y t (path ++ index i ∷ [])) _ h).0,
        )
  items-Accepted (item y ys) t x path i h (inr m) =
      items-Accepted ys t x path (i + 1)
        (both_ok (validate_against_schema F y t (path ++ index i ∷ [])) _ h).1 m

  -- The check of the value of one key, under the schema of its name.
  abbrev pub check_field : Json Float → Place → Option (Json Float) → Checked F
  check_field y path o = elim o [ none ↦ ok tt | some s ↦ validate_against_schema F y s path ]

  field-here :
      (y x t : Json Float) (path : Place) (o : Option (Json Float))
      → x ≡ y
      → o ≡ some t
      → check_field y path o ≡ ok tt
      → Accepted x t
  unfolding Accepted
  field-here y x t path o e g h = (path, rw e (subst (λ z. check_field y path z ≡ ok tt) g h))

  fields-Accepted :
      (fs properties : Fields Float) (name : Text) (x t : Json Float) (path : Place)
      → validate_fields F fs properties path ≡ ok tt
      → IsField F name x fs
      → get name properties ≡ some t
      → Accepted x t
  unfolding Accepted validate_against_schema
  fields-Accepted end properties name x t path h m g = absurd m
  fields-Accepted (field j y fs) properties name x t path h (inl (same, e)) g =
      field-here y x t (path ++ key j ∷ []) (get j properties) e
        (subst (λ k. get k properties ≡ some t) same g)
        (both_ok (check_field y (path ++ key j ∷ []) (get j properties)) _ h).0
  fields-Accepted (field j y fs) properties name x t path h (inr m) g =
      fields-Accepted fs properties name x t path
        (both_ok (check_field y (path ++ key j ∷ []) (get j properties)) _ h).1 m g

  Below-Accepted : (p s x t : Json Float) → Accepted p s → Below F p s x t → Accepted x t
  unfolding own_checks Accepted
  Below-Accepted (array xs) s x t (path, h) (m, rule) =
      let (k, e, all, own) = validate-split F (array xs) s path h in
      let (_, inner) =
        both_ok
          (check_bound F (whole (pos (count_items xs))) (get (codes "minItems") k)
            (array_too_short path))
          _ own in
      items-Accepted xs t x path 0
        (subst (λ o. check_items xs path o ≡ ok tt) (subst (λ z. item_rule F z ≡ some t) e rule)
          inner)
        m
  Below-Accepted (object fs) s x t (path, h) (name, m, rule) =
      let (k, e, all, own) = validate-split F (object fs) s path h in
      let (_, h1) = both_ok (check_required F fs path (get (codes "required") k)) _ own in
      let (properties, given, h2) =
        bind_ok (properties_of F (get (codes "properties") k)) _ tt h1 in
      let (_, inner) =
        both_ok (check_additional F fs properties path (get (codes "additionalProperties") k)) _
          h2 in
      fields-Accepted fs properties name x t path inner m (
        subst (λ r. property_in F name r ≡ some t) given
          (subst (λ z. property_rule F z name ≡ some t) e rule))
  Below-Accepted null s x t a b = absurd b
  Below-Accepted (bool c) s x t a b = absurd b
  Below-Accepted (int n) s x t a b = absurd b
  Below-Accepted (float y) s x t a b = absurd b
  Below-Accepted (string c) s x t a b = absurd b

  Reaches-Accepted : {p s x t : Json Float} → Accepted p s → Reaches F p s x t → Accepted x t
  Reaches-Accepted a here = a
  Reaches-Accepted a (inside {x} {t} {y} {u} r b) = Below-Accepted x t y u (Reaches-Accepted a r) b

  pub accepted-MeetsEverywhere :
      (p s : Json Float) (path : Place)
      → validate_against_schema F p s path ≡ ok tt
      → MeetsEverywhere F p s
  unfolding Accepted
  accepted-MeetsEverywhere p s path h x t r =
      let (place, fine) = Reaches-Accepted (path, h) r in validate-Meets x t place fine
