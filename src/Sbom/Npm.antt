-- ===== src/Sbom/Npm.antt =====
-- tools/gen_sbom.py: `collect_npm` on the entries of package-lock.json. The hexadecimal digits of a
-- base64 text are an argument, none for what does not decode.
use lca.Prelude.{
  ℕ, ◌==◌, Bool, if◌then◌else◌, List, [], ◌∷◌, ◌++◌, Option, none, some, Result, ok, err, ◌>>=◌,
}
use lca.Text.{Text, codes, text_eq, strip_prefix?, find?, split_on}
use lca.Trace.{text_lt}
use lca.Sbom.Entry.{
  SbomError, index_error, attribute_error, sorted, prop, draft, Component, component,
}
use lca.Sbom.Gitmodules.{partition}

-- What stands before and after the last of the characters.
abbrev pub rpartition_words : ℕ → List Text → Text × Text
rpartition_words c [] = ([], [])
rpartition_words c (w ∷ []) = ([], w)
rpartition_words c (w ∷ v ∷ []) = (w, v)
rpartition_words c (w ∷ v ∷ u ∷ ws) =
    let (before, after) = rpartition_words c (v ∷ u ∷ ws) in (w ++ c ∷ before, after)

-- `text.rpartition(c)`
abbrev pub rpartition : ℕ → Text → Text × Text
unfolding split_on
rpartition c s = rpartition_words c (split_on c s)

-- `value or None`, and a test for being true, of a text.
abbrev pub nonempty? : Text → Option Text
nonempty? [] = none
nonempty? (c ∷ s) = some (c ∷ s)

abbrev pub truthy : Option Text → Option Text
truthy none = none
truthy (some s) = nonempty? s

-- `f"{value}"`
abbrev pub shown : Option Text → Text
shown none = codes "None"
shown (some s) = s

abbrev pub escape_at : Text → Text
escape_at [] = []
escape_at (c ∷ s) = if c == b'@' then codes "%40" ++ escape_at s else c ∷ escape_at s

pub record NpmEntry : Type 0 where
  pub version : Option Text
  pub integrity : Option Text
  pub resolved : Option Text
  pub license : Option Text

abbrev pub algorithm_of : Text → Option Text
algorithm_of algorithm =
    if text_eq algorithm (codes "sha512")
    then some (codes "SHA-512")
    else if text_eq algorithm (codes "sha256")
    then some (codes "SHA-256")
    else if text_eq algorithm (codes "sha1")
    then some (codes "SHA-1")
    else none

-- `version.split(".")[0] + "." + version.split(".")[1]`
abbrev pub upstream_version : Option Text → Result SbomError Text
unfolding split_on
upstream_version none = err attribute_error
upstream_version (some version) = elim (split_on b'.' version) [
  | major ∷ minor ∷ rest ↦ ok (major ++ b'.' ∷ minor)
  | words ↦ err index_error
]

abbrev pub yosys : Text
yosys = codes "@yowasp/yosys"

-- The properties of the package that is also the toolchain.
abbrev pub yosys_properties : Text → Option Text → Result SbomError (List (Text × Text))
unfolding split_on
yosys_properties name version =
    let found = upstream_version version in
    if text_eq name yosys
    then (found >>= λ upstream. ok (
        prop "lca1:role" (codes "toolchain:synthesis-and-formal")
        ∷ prop "lca1:yosys:upstream-version" upstream
        ∷ prop "lca1:toolchain:invocation" (codes "tools/run_yosys.mjs")
        ∷ []))
    else ok []

module _ (hex_of_base64 : Text → Option Text) where
  abbrev pub hash_of : Text → List (Text × Text)
  unfolding find?
  hash_of integrity =
      let (algorithm, encoded) = partition b'-' integrity in
      elim (truthy (hex_of_base64 encoded)) [
        | none ↦ []
        | some digest ↦ elim (algorithm_of algorithm) [ none ↦ [] | some alg ↦ (alg, digest) ∷ [] ]
      ]

  abbrev pub integrity_properties : Option Text → List (Text × Text)
  integrity_properties integrity = elim (truthy integrity) [
    | none ↦ []
    | some i ↦ prop "lca1:npm:integrity" i ∷ []
  ]

  abbrev pub integrity_hashes : Option Text → List (Text × Text)
  unfolding find?
  integrity_hashes integrity = elim (truthy integrity) [ none ↦ [] | some i ↦ hash_of i ]

  unfoldable pub npm_component : Text → NpmEntry → Result SbomError Component
  unfolding component split_on find?
  npm_component name entry = do
    extra ← yosys_properties name entry.version
    let (group, bare) = rpartition b'/' name in
        let version = shown entry.version in
        component
          (record (draft (codes "npm/" ++ name ++ codes "@" ++ version)
            (if text_eq name yosys then codes "application" else codes "library") bare) {
              group = nonempty? group;
              version = entry.version;
              licenses = elim (truthy entry.license) [ none ↦ none | some id ↦ some (id ∷ []) ];
              noassertion_reason = elim (truthy entry.license) [
                | none ↦ some (codes "package-lock.json records no license field")
                | some id ↦ none
              ];
              purl = some (
                  codes "pkg:npm/"
                  ++ (elim group [ [] ↦ bare | c ∷ s ↦ escape_at (c ∷ s) ++ b'/' ∷ bare ])
                  ++ codes "@"
                  ++ version);
              hashes = integrity_hashes entry.integrity;
              external_references = elim (truthy entry.resolved) [
                | none ↦ []
                | some url ↦ (codes "distribution", url) ∷ []
              ];
              properties =
                  prop "lca1:source" (codes "package-lock.json")
                    ∷ integrity_properties entry.integrity
                  ++ extra;
            })

  abbrev pub npm_components : List (Text × NpmEntry) → Result SbomError (List Component)
  unfolding npm_component strip_prefix?
  npm_components [] = ok []
  npm_components ((path, entry) ∷ packages) =
      let later = npm_components packages in
      elim (strip_prefix? (codes "node_modules/") path) [
        | none ↦ later
        | some name ↦ npm_component name entry >>= λ c. later >>= λ cs. ok (c ∷ cs)
      ]

  abbrev pub path_lt : Text × NpmEntry → Text × NpmEntry → Bool
  unfolding text_lt
  path_lt (a, e) (b, f) = text_lt a b

  unfoldable pub collect_npm : List (Text × NpmEntry) → Result SbomError (List Component)
  unfolding npm_component strip_prefix? sorted text_lt
  collect_npm packages = npm_components (sorted path_lt packages)
