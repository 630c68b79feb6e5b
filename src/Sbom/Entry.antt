-- ===== src/Sbom/Entry.antt =====
-- tools/gen_sbom.py: `component`, with the keyword arguments as a record, and the sorts.
use Prim.Native.String.{String}
use lca.Prelude.{Bool, if◌then◌else◌, List, [], ◌∷◌, ◌++◌, map, Option, none, some, Result, ok, err}
use lca.Text.{Text, codes, text_eq}
use lca.Trace.{text_lt}

pub data SbomError : Type 0 where
  license_decision : Text → SbomError
  duplicate_refs : List Text → SbomError
  index_error attribute_error key_error type_error : SbomError

-- `sorted(xs)` and `list.sort`, stable, where `before x y` is `x < y`.
module _ {A : Type 0} (before : A → A → Bool) where
  unfoldable pub insert_sorted : A → List A → List A
  insert_sorted x [] = x ∷ []
  insert_sorted x (y ∷ ys) =
      let rest = insert_sorted x ys in if before y x then y ∷ rest else x ∷ y ∷ ys

  unfoldable pub sorted : List A → List A
  unfolding insert_sorted
  sorted [] = []
  sorted (x ∷ xs) = insert_sorted x (sorted xs)

abbrev pub pair_lt : Text × Text → Text × Text → Bool
unfolding text_lt
pair_lt (a, b) (c, d) = if text_eq a c then text_lt b d else text_lt a c

abbrev pub noassertion_reason_name : Text
noassertion_reason_name = codes "lca1:license:noassertion-reason"

-- `{"name": name, "value": value}`
abbrev pub prop : String → Text → Text × Text
prop name value = (codes name, value)

pub data License : Type 0 where
  spdx : Text → License
  noassertion : License

pub record Draft : Type 0 where
  pub bom_ref : Text
  pub ctype : Text
  pub name : Text
  pub version : Option Text
  pub group : Option Text
  pub description : Option Text
  pub licenses : Option (List Text)
  pub noassertion_reason : Option Text
  pub purl : Option Text
  pub hashes : List (Text × Text)
  pub external_references : List (Text × Text)
  pub properties : List (Text × Text)

-- The arguments that every call gives; the others have their defaults.
abbrev pub draft : Text → Text → Text → Draft
draft bom_ref ctype name = record {
  bom_ref = bom_ref;
  ctype = ctype;
  name = name;
  version = none;
  group = none;
  description = none;
  licenses = none;
  noassertion_reason = none;
  purl = none;
  hashes = [];
  external_references = [];
  properties = [];
}

pub record Component : Type 0 where
  pub bom_ref : Text
  pub ctype : Text
  pub name : Text
  pub group : Option Text
  pub version : Option Text
  pub description : Option Text
  pub licenses : List License
  pub purl : Option Text
  pub hashes : List (Text × Text)
  pub external_references : List (Text × Text)
  pub properties : List (Text × Text)

abbrev entry_with : Draft → List License → List (Text × Text) → Component
unfolding sorted text_lt
entry_with d licenses properties = record {
  bom_ref = d.bom_ref;
  ctype = d.ctype;
  name = d.name;
  group = d.group;
  version = d.version;
  description = d.description;
  licenses = licenses;
  purl = d.purl;
  hashes = d.hashes;
  external_references = d.external_references;
  properties = sorted pair_lt properties;
}

-- Exactly one of the licences and the reason for their absence is given.
unfoldable pub component : Draft → Result SbomError Component
unfolding sorted text_lt
component d = elim d.licenses [
  | none ↦ elim d.noassertion_reason [
    | none ↦ err (license_decision d.bom_ref)
    | some reason ↦
        ok
          (entry_with d (noassertion ∷ []) (d.properties ++ (noassertion_reason_name, reason) ∷ []))
  ]
  | some ids ↦ elim d.noassertion_reason [
    | none ↦ ok (entry_with d (map spdx ids) d.properties)
    | some reason ↦ err (license_decision d.bom_ref)
  ]
]
