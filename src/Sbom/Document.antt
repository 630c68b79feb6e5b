-- ===== src/Sbom/Document.antt =====
-- tools/gen_sbom.py: `_compositions` and `build_bom`, without the constant texts of the metadata.
-- `collect_hardware` stands in Hardware, and its result among the inputs.
use lca.Prelude.{
  ℕ, suc, ltb, Bool, if◌then◌else◌, List, [], ◌∷◌, ◌++◌, map, Option, Result, ok, err, ◌>>=◌,
}
use lca.Text.{Text, codes, text_eq, starts_with}
use lca.Vcd.{has_text}
use lca.Trace.{text_lt}
use lca.Sbom.Entry.{SbomError, duplicate_refs, sorted, Component}
use lca.Sbom.Npm.{NpmEntry, collect_npm}
use lca.Sbom.Collect.{
  Project, collect_root, collect_requirements, collect_notice_files, notice_files,
}
use lca.Sbom.Submodules.{collect_submodules}
use lca.Sbom.Workflows.{Scan, collect_actions, collect_toolchain}

abbrev pub refs_of : List Component → List Text
refs_of components = map (λ (c : Component). c.bom_ref) components

abbrev pub ref_lt : Component → Component → Bool
ref_lt c d = text_lt c.bom_ref d.bom_ref

-- `refs.count(ref)`
abbrev pub count : Text → List Text → ℕ
count t [] = 0
count t (x ∷ xs) = let rest = count t xs in if text_eq x t then suc rest else rest

-- The references among `some_refs` that stand more than once in `refs`.
abbrev pub repeated : List Text → List Text → List Text
repeated refs [] = []
repeated refs (t ∷ ts) =
    let rest = repeated refs ts in if ltb 1 (count t refs) then t ∷ rest else rest

-- The elements of a set.
unfoldable pub as_set : List Text → List Text
unfolding has_text
as_set [] = []
as_set (t ∷ ts) = let rest = as_set ts in if has_text t rest then rest else t ∷ rest

abbrev pub with_prefix : Text → List Text → List Text
with_prefix prefix [] = []
with_prefix prefix (t ∷ ts) =
    let rest = with_prefix prefix ts in if starts_with prefix t then t ∷ rest else rest

-- `matching(prefix)`
abbrev pub matching : List Text → Text → List Text
matching refs prefix = sorted text_lt (with_prefix prefix refs)

pub record Composition : Type 0 where
  pub aggregate : Text
  pub assemblies : List Text

abbrev pub groups : List Text → List Composition
groups refs =
    record { aggregate = codes "complete"; assemblies = matching refs (codes "npm/") }
    ∷ record { aggregate = codes "incomplete"; assemblies = matching refs (codes "submodule/") }
    ∷ record {
      aggregate = codes "incomplete";
      assemblies = matching refs (codes "hardware/") ++ matching refs (codes "container/");
    }
    ∷ record {
      aggregate = codes "incomplete_first_party_only";
      assemblies = matching refs (codes "file/") ++ matching refs (codes "lca1@");
    }
    ∷ record {
      aggregate = codes "complete";
      assemblies = matching refs (codes "action/") ++ matching refs (codes "repo/");
    }
    ∷ record { aggregate = codes "unknown"; assemblies = matching refs (codes "toolchain/apt/") }
    ∷ []

abbrev pub nonempty_groups : List Composition → List Composition
nonempty_groups [] = []
nonempty_groups (g ∷ gs) =
    let rest = nonempty_groups gs in
    elim g.assemblies [
      | [] ↦ rest
      | t ∷ ts ↦ record { aggregate = g.aggregate; assemblies = sorted text_lt (t ∷ ts) } ∷ rest
    ]

unfoldable pub compositions : List Component → List Composition
unfolding sorted text_lt starts_with as_set
compositions components = nonempty_groups (groups (as_set (refs_of components)))

pub record Dependency : Type 0 where
  pub ref : Text
  pub depends_on : List Text

pub record Bom : Type 0 where
  pub root_component : Component
  pub unpinned_actions : List Text
  pub components : List Component
  pub dependencies : List Dependency
  pub composition_groups : List Composition

abbrev pub leaf : Component → Dependency
leaf c = record { ref = c.bom_ref; depends_on = [] }

-- The document of the components that the collectors return.
unfoldable pub assemble : Component → List Component → List Text → Result SbomError Bom
unfolding sorted text_lt compositions as_set
assemble root_component collected unpinned =
    let components = sorted ref_lt collected in
    let refs = refs_of components in
    elim (repeated refs refs) [
      | t ∷ ts ↦ err (duplicate_refs (sorted text_lt (as_set (t ∷ ts))))
      | [] ↦ ok record {
        root_component = root_component;
        unpinned_actions = sorted text_lt unpinned;
        components = components;
        dependencies =
            record { ref = root_component.bom_ref; depends_on = sorted text_lt refs }
            ∷ map leaf components;
        composition_groups = compositions components;
      }
    ]

-- What `build_bom` reads.
pub record Inputs : Type 0 where
  pub scan : Scan
  pub project : Project
  pub packages : List (Text × NpmEntry)
  pub gitmodules : Option Text
  pub tree : Option Text
  pub status : Option Text
  pub digest_of : Text → Option Text
  pub hex_of_base64 : Text → Option Text
  pub hardware : Result SbomError (List Component)
  pub engines : List (Text × Text)

unfoldable pub build_bom : Inputs → Result SbomError Bom
build_bom inputs = do
  root_component ← collect_root inputs.project
  build_requirements ← collect_requirements inputs.project
  npm ← collect_npm inputs.hex_of_base64 inputs.packages
  submodules ← collect_submodules inputs.gitmodules inputs.tree inputs.status
  notice ← collect_notice_files inputs.digest_of notice_files
  hardware ← inputs.hardware
  toolchain ← collect_toolchain inputs.engines inputs.scan
  actions ← collect_actions inputs.scan
  assemble root_component
      (npm ++ build_requirements ++ submodules ++ notice ++ hardware ++ toolchain ++ actions)
      inputs.scan.unpinned
