-- ===== src/Schema/Defs.antt =====
-- tools/power_trace_from_vcd.py: `validate_against_schema` and `_is_type`. An error holds the place
-- as a list of steps, not its text. A keyword whose value is not of the type that the checker goes
-- on to use, where Python raises a TypeError or an AttributeError, is the error `malformed`.
use lca.Prelude.{
  ℕ, ◌+◌, Bool, true, false, not, ◌||◌, List, [], ◌∷◌, ◌++◌, Option, none, some, if◌then◌else◌, pos,
  Result, ok, err, ◌>>=◌, ◌>>◌, raise_if, length,
}
use lca.Floats.{Floats}
use lca.Text.{Text, codes, text_eq}
use lca.Json.{
  Json, null, bool, int, float, string, array, object, Items, nil, item, Fields, end, field, get,
  has_key, count_items, to_list, Number, whole, real, number_of, less, json_eq,
}

-- `.key` and `[index]` in the path of an error.
pub data Step : Type 0 where
  key : Text → Step
  index : ℕ → Step

abbrev pub Place : Type 0
Place = List Step

module _ (F : Floats) where
  open F use {Float}

  pub data SchemaError : Type 0 where
    not_const not_in_enum wrong_type below_minimum : Place → SchemaError
    string_too_short array_too_short : Place → SchemaError
    missing_property additional_property : Place → Text → SchemaError
    unsupported_type : Json Float → SchemaError
    malformed : SchemaError

  abbrev pub Checked : Type 0
  Checked = Result SchemaError (Unit {0})

  abbrev pub is_object : Json Float → Bool
  is_object (object fs) = true
  is_object v = false

  abbrev pub is_array : Json Float → Bool
  is_array (array xs) = true
  is_array v = false

  abbrev pub is_string : Json Float → Bool
  is_string (string s) = true
  is_string v = false

  abbrev pub is_integer : Json Float → Bool
  is_integer (int n) = true
  is_integer v = false

  abbrev pub is_number : Json Float → Bool
  is_number (int n) = true
  is_number (float x) = true
  is_number v = false

  abbrev pub is_boolean : Json Float → Bool
  is_boolean (bool b) = true
  is_boolean v = false

  abbrev pub is_null : Json Float → Bool
  is_null null = true
  is_null v = false

  abbrev pub is_type_named : Json Float → Text → Result SchemaError Bool
  is_type_named payload name =
      if text_eq name (codes "object")
      then ok (is_object payload)
      else if text_eq name (codes "array")
      then ok (is_array payload)
      else if text_eq name (codes "string")
      then ok (is_string payload)
      else if text_eq name (codes "integer")
      then ok (is_integer payload)
      else if text_eq name (codes "number")
      then ok (is_number payload)
      else if text_eq name (codes "boolean")
      then ok (is_boolean payload)
      else if text_eq name (codes "null")
      then ok (is_null payload)
      else err (unsupported_type (string name))

  unfoldable pub is_type : Json Float → Json Float → Result SchemaError Bool
  is_type payload (string name) = is_type_named payload name
  is_type payload name = err (unsupported_type name)

  -- `any(_is_type(payload, name) for name in allowed)`
  unfoldable pub any_type : Json Float → List (Json Float) → Result SchemaError Bool
  unfolding is_type
  any_type payload [] = ok false
  any_type payload (name ∷ names) =
      let later = any_type payload names in
      is_type payload name >>= λ found. if found then ok true else later

  -- `payload in values`
  unfoldable pub is_among : Json Float → List (Json Float) → Bool
  unfolding json_eq
  is_among payload [] = false
  is_among payload (v ∷ vs) = json_eq F payload v || is_among payload vs

  abbrev pub check_const : Json Float → Place → Option (Json Float) → Checked
  check_const payload path none = ok tt
  check_const payload path (some v) = raise_if (not (json_eq F payload v)) (not_const path)

  abbrev pub check_enum : Json Float → Place → Option (Json Float) → Checked
  check_enum payload path none = ok tt
  check_enum payload path (some (array vs)) =
      raise_if (not (is_among payload (to_list vs))) (not_in_enum path)
  check_enum payload path (some v) = err malformed

  abbrev pub check_types : Json Float → Place → List (Json Float) → Checked
  check_types payload path names =
      any_type payload names >>= λ found. raise_if (not found) (wrong_type path)

  abbrev pub check_type : Json Float → Place → Option (Json Float) → Checked
  check_type payload path none = ok tt
  check_type payload path (some null) = ok tt
  check_type payload path (some (string name)) = check_types payload path (string name ∷ [])
  check_type payload path (some (array names)) = check_types payload path (to_list names)
  check_type payload path (some v) = err malformed

  -- `if bound is not None and n < bound: raise e`
  abbrev pub check_bound : Number F → Option (Json Float) → SchemaError → Checked
  check_bound n none e = ok tt
  check_bound n (some null) e = ok tt
  check_bound n (some v) e = elim (number_of F v) [
    | none ↦ err malformed
    | some m ↦ raise_if (less F n m) e
  ]

  abbrev pub check_names : Fields Float → Place → List (Json Float) → Checked
  check_names fs path [] = ok tt
  check_names fs path (string name ∷ names) =
      raise_if (not (has_key name fs)) (missing_property path name) >> check_names fs path names
  check_names fs path (v ∷ names) = err malformed

  abbrev pub check_required : Fields Float → Place → Option (Json Float) → Checked
  check_required fs path none = ok tt
  check_required fs path (some (array names)) = check_names fs path (to_list names)
  check_required fs path (some v) = err malformed

  abbrev pub properties_of : Option (Json Float) → Result SchemaError (Fields Float)
  properties_of none = ok end
  properties_of (some (object properties)) = ok properties
  properties_of (some v) = err malformed

  abbrev pub check_all_known : Fields Float → Fields Float → Place → Checked
  check_all_known end properties path = ok tt
  check_all_known (field k v fs) properties path =
      raise_if (not (has_key k properties)) (additional_property path k)
      >> check_all_known fs properties path

  -- `schema.get("additionalProperties") is False`
  abbrev pub check_additional : Fields Float → Fields Float → Place → Option (Json Float) → Checked
  check_additional fs properties path (some (bool false)) = check_all_known fs properties path
  check_additional fs properties path v = ok tt

  -- `schema.get("items")` where it is a dictionary.
  abbrev pub item_schema : Option (Json Float) → Option (Json Float)
  item_schema (some (object schema)) = some (object schema)
  item_schema v = none

  -- The checks that every payload undergoes, and the keywords for those that follow.
  unfoldable pub keywords_for : Json Float → Json Float → Place → Result SchemaError (Fields Float)
  unfolding json_eq is_among any_type
  keywords_for payload (object schema) path = do
    check_const payload path (get (codes "const") schema)
    check_enum payload path (get (codes "enum") schema)
    check_type payload path (get (codes "type") schema)
    ok schema
  keywords_for payload schema path = err malformed

  unfoldable mutual
    unfolding keywords_for

    pub validate_against_schema : Json Float → Json Float → Place → Checked
    validate_against_schema null schema path = keywords_for null schema path >>= λ s. ok tt
    validate_against_schema (bool b) schema path = keywords_for (bool b) schema path >>= λ s. ok tt
    validate_against_schema (int n) schema path = do
      s ← keywords_for (int n) schema path
      check_bound (whole n) (get (codes "minimum") s) (below_minimum path)
    validate_against_schema (float x) schema path = do
      s ← keywords_for (float x) schema path
      check_bound (real x) (get (codes "minimum") s) (below_minimum path)
    validate_against_schema (string t) schema path = do
      s ← keywords_for (string t) schema path
      check_bound (whole (pos (length t))) (get (codes "minLength") s) (string_too_short path)
    validate_against_schema (array xs) schema path = do
      s ← keywords_for (array xs) schema path
      check_bound (whole (pos (count_items xs))) (get (codes "minItems") s) (array_too_short path)
      elim (item_schema (get (codes "items") s)) [
        | none ↦ ok tt
        | some inner ↦ validate_items xs inner path 0
      ]
    validate_against_schema (object fs) schema path = do
      s ← keywords_for (object fs) schema path
      check_required fs path (get (codes "required") s)
      properties ← properties_of (get (codes "properties") s)
      check_additional fs properties path (get (codes "additionalProperties") s)
      validate_fields fs properties path

    pub validate_items : Items Float → Json Float → Place → ℕ → Checked
    validate_items nil schema path i = ok tt
    validate_items (item x xs) schema path i =
        validate_against_schema x schema (path ++ index i ∷ [])
        >> validate_items xs schema path (i + 1)

    pub validate_fields : Fields Float → Fields Float → Place → Checked
    validate_fields end properties path = ok tt
    validate_fields (field k v fs) properties path =
        elim (get k properties) [
          | none ↦ ok tt
          | some s ↦ validate_against_schema v s (path ++ key k ∷ [])
        ]
        >> validate_fields fs properties path
