-- ===== src/Schema/Places.antt =====
-- Which values stand inside a document, and the schemas that apply to them.
use lca.Prelude.{◌≡◌, ◌⊎◌, Option, none, some, Result, ok, err, pos}
use lca.Floats.{Floats}
use lca.Text.{Text, codes}
use lca.Json.{
  Json, int, float, string, array, object, Items, nil, item, Fields, end, field, get, count_items,
  whole, real,
}
use lca.Prelude.{length}
use lca.Schema.Defs.{SchemaError, properties_of, item_schema}
use lca.Schema.Keywords.{IfGiven, FitsAll, Bounds, Requires, Closed}

module _ (F : Floats) where
  open F use {Float}

  abbrev pub IsItem : Json Float → Items Float → Type 0
  IsItem x nil = ⊥
  IsItem x (item y ys) = (x ≡ y) ⊎ IsItem x ys

  abbrev pub IsField : Text → Json Float → Fields Float → Type 0
  IsField k x end = ⊥
  IsField k x (field j y fs) = ((k ≡ j) × (x ≡ y)) ⊎ IsField k x fs

  -- The schema of the items, and the schema of a property, that a schema gives.
  abbrev pub item_rule : Json Float → Option (Json Float)
  item_rule (object keywords) = item_schema F (get (codes "items") keywords)
  item_rule v = none

  abbrev pub property_in : Text → Result (SchemaError F) (Fields Float) → Option (Json Float)
  property_in name (ok properties) = get name properties
  property_in name (err e) = none

  abbrev pub property_rule : Json Float → Text → Option (Json Float)
  property_rule (object keywords) name =
      property_in name (properties_of F (get (codes "properties") keywords))
  property_rule v name = none

  -- A value stands directly inside another, with the schema that applies to it there.
  abbrev pub Below : Json Float → Json Float → Json Float → Json Float → Type 0
  Below (array xs) s x t = IsItem x xs × (item_rule s ≡ some t)
  Below (object fs) s x t = (name : Text) × IsField name x fs × (property_rule s name ≡ some t)
  Below v s x t = ⊥

  -- A value stands somewhere inside another, with the schema that applies to it.
  pub data Reaches (p s : Json Float) : Json Float → Json Float → Type 0 where
    here : Reaches p s p s
    inside : {x t y u : Json Float} → Reaches p s x t → Below x t y u → Reaches p s y u

  pub prepend : {p s x t y u : Json Float} → Below p s x t → Reaches x t y u → Reaches p s y u
  prepend b here = inside here b
  prepend b (inside r c) = inside (prepend b r) c

  -- What a schema says of the value that it applies to, by the value's type.
  abbrev pub FitsOwn : Json Float → Fields Float → Type 0
  FitsOwn (int n) keywords = IfGiven F (get (codes "minimum") keywords) (Bounds F (whole n))
  FitsOwn (float x) keywords = IfGiven F (get (codes "minimum") keywords) (Bounds F (real x))
  FitsOwn (string s) keywords =
      IfGiven F (get (codes "minLength") keywords) (Bounds F (whole (pos (length s))))
  FitsOwn (array xs) keywords =
      IfGiven F (get (codes "minItems") keywords) (Bounds F (whole (pos (count_items xs))))
  FitsOwn (object fs) keywords =
      IfGiven F (get (codes "required") keywords) (Requires F fs)
      × ((properties : Fields Float) × (properties_of F (get (codes "properties") keywords)
            ≡ ok properties)
          × Closed F fs properties (get (codes "additionalProperties") keywords))
  FitsOwn v keywords = Unit

  abbrev pub Meets : Json Float → Json Float → Type 0
  Meets p (object keywords) = FitsAll F p keywords × FitsOwn p keywords
  Meets p v = ⊥

  -- Every value inside the document meets the schema that applies to it there.
  abbrev pub MeetsEverywhere : Json Float → Json Float → Type 0
  MeetsEverywhere p s = (x t : Json Float) → Reaches p s x t → Meets x t
