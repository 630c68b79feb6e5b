-- ===== src/Sbom/Closed.antt =====
-- The references of a document that `build_bom` returns.
use mathlib.Core.List.{Perm}
use Prim.Native.String.{String}
use lca.Prelude.{
  ◌≡◌, ◌⊎◌, inl, inr, refl, ap, subst, List, [], ◌∷◌, ◌++◌, map, ok, arith, All, All-append,
  bind_ok,
}
use lca.Text.{Text, codes}
use lca.Trace.{text_lt}
use lca.Sbom.Entry.{sorted, Component}
use lca.Sbom.Npm.{collect_npm}
use lca.Sbom.Collect.{collect_root, collect_requirements, collect_notice_files, notice_files}
use lca.Sbom.Submodules.{collect_submodules}
use lca.Sbom.Workflows.{collect_actions, collect_toolchain}
use lca.Sbom.Document.{
  refs_of, ref_lt, repeated, as_set, with_prefix, matching, Composition, groups, nonempty_groups,
  compositions, Dependency, leaf, Bom, assemble, Inputs, build_bom,
}
use lca.Sbom.Sorting.{
  sorted-Perm, sorted-All, Distinct, AreAmong, AreAmong-refl, as_set-AreAmong, with_prefix-AreAmong,
  repeated-Distinct,
}

List-cases : {A : Type 0} (xs : List A) → (xs ≡ []) ⊎ ((y : A) × (ys : List A) × (xs ≡ y ∷ ys))
List-cases [] = inl refl
List-cases (y ∷ ys) = inr (y, ys, refl)

abbrev AreGroups : List Text → List Composition → Type 0
AreGroups refs gs = All (λ (g : Composition). AreAmong refs g.assemblies) gs

matching-AreAmong :
    (refs among : List Text) (prefix : Text)
    → AreAmong refs among
    → AreAmong refs (matching among prefix)
matching-AreAmong refs among prefix h =
    sorted-All text_lt _ (with_prefix prefix among) (with_prefix-AreAmong refs prefix among h)

-- One step of `nonempty_groups`.
add_group :
    (refs : List Text) (aggregate : Text) (rest : List Composition) (ts : List Text)
    → AreAmong refs ts
    → AreGroups refs rest
    → AreGroups refs (elim ts [
      | [] ↦ rest
      | t ∷ later ↦ record { aggregate = aggregate; assemblies = sorted text_lt (t ∷ later) } ∷ rest
    ])
add_group refs aggregate rest [] a h = h
add_group refs aggregate rest (t ∷ later) a h = (sorted-All text_lt _ (t ∷ later) a, h)

nonempty_groups-AreGroups :
    (refs : List Text) (gs : List Composition)
    → AreGroups refs gs
    → AreGroups refs (nonempty_groups gs)
nonempty_groups-AreGroups refs [] h = tt
nonempty_groups-AreGroups refs (g ∷ gs) (a, h) =
    add_group refs g.aggregate (nonempty_groups gs) g.assemblies a
      (nonempty_groups-AreGroups refs gs h)

groups-AreGroups : (refs among : List Text) → AreAmong refs among → AreGroups refs (groups among)
groups-AreGroups refs among h = (
  one "npm/",
  (
    one "submodule/",
    (
      two "hardware/" "container/",
      (two "file/" "lca1@", (two "action/" "repo/", (one "toolchain/apt/", tt))),
    ),
  ),
)
  where
    one : (prefix : String) → AreAmong refs (matching among (codes prefix))
    one prefix = matching-AreAmong refs among (codes prefix) h

    two :
        (prefix other : String)
        → AreAmong refs (matching among (codes prefix) ++ matching among (codes other))
    two prefix other =
        All-append _ (matching among (codes prefix)) (matching among (codes other)) (one prefix)
          (one other)

leaves :
    (refs : List Text) (components : List Component)
    → All (λ (d : Dependency). AreAmong refs d.depends_on) (map leaf components)
leaves refs [] = tt
leaves refs (c ∷ components) = (tt, leaves refs components)

leaf_refs :
    (components : List Component)
    → map (λ (d : Dependency). d.ref) (map leaf components) ≡ refs_of components
leaf_refs [] = refl
leaf_refs (c ∷ components) = ap (λ (ts : List Text). c.bom_ref ∷ ts) (leaf_refs components)

-- A document of the components that were collected, whose references all lead to them.
pub record IsClosed (collected : List Component) (bom : Bom) : Type 0 where
  pub complete : Perm bom.components collected
  pub distinct : Distinct (refs_of bom.components)
  pub assembled :
      All
        (λ (g : Composition). AreAmong (refs_of bom.components) g.assemblies)
        bom.composition_groups
  pub depended :
      All (λ (d : Dependency). AreAmong (refs_of bom.components) d.depends_on) bom.dependencies
  pub depending :
      map (λ (d : Dependency). d.ref) bom.dependencies
      ≡ bom.root_component.bom_ref ∷ refs_of bom.components

abbrev document : Component → List Component → List Text → Bom
document root collected unpinned =
    let components = sorted ref_lt collected in
    record {
      root_component = root;
      unpinned_actions = sorted text_lt unpinned;
      components = components;
      dependencies =
          record { ref = root.bom_ref; depends_on = sorted text_lt (refs_of components) }
          ∷ map leaf components;
      composition_groups = compositions components;
    }

document-IsClosed :
    (root : Component) (collected : List Component) (unpinned : List Text)
    → repeated (refs_of (sorted ref_lt collected)) (refs_of (sorted ref_lt collected)) ≡ []
    → IsClosed collected (document root collected unpinned)
unfolding compositions
document-IsClosed root collected unpinned h =
    let components = sorted ref_lt collected in
    let refs = refs_of components in
    record {
      complete = sorted-Perm ref_lt collected;
      distinct = repeated-Distinct refs h;
      assembled =
          nonempty_groups-AreGroups refs (groups (as_set refs))
            (groups-AreGroups refs (as_set refs) (as_set-AreAmong refs refs (AreAmong-refl refs)));
      depended = (sorted-All text_lt _ refs (AreAmong-refl refs), leaves refs components);
      depending = ap (λ (ts : List Text). root.bom_ref ∷ ts) (leaf_refs components);
    }

assemble-IsClosed :
    (root : Component) (collected : List Component) (unpinned : List Text) (bom : Bom)
    → assemble root collected unpinned ≡ ok bom
    → IsClosed collected bom
unfolding assemble
assemble-IsClosed root collected unpinned bom h =
    elim (List-cases
      (repeated (refs_of (sorted ref_lt collected)) (refs_of (sorted ref_lt collected)))) [
        | inl once ↦
            subst (λ b. IsClosed collected b) (ground (arith, once))
              (document-IsClosed root collected unpinned once)
        | inr (t, ts, twice) ↦ absurd (ground (arith, twice))
      ]

-- What the collectors return for some inputs, in the order of `build_bom`.
pub record IsCollected (inputs : Inputs) (collected : List Component) : Type 0 where
  pub npm : List Component
  pub build_requirements : List Component
  pub submodules : List Component
  pub notice : List Component
  pub hardware : List Component
  pub toolchain : List Component
  pub actions : List Component
  pub of_npm : collect_npm inputs.hex_of_base64 inputs.packages ≡ ok npm
  pub of_project : collect_requirements inputs.project ≡ ok build_requirements
  pub of_submodules : collect_submodules inputs.gitmodules inputs.tree inputs.status ≡ ok submodules
  pub of_notice : collect_notice_files inputs.digest_of notice_files ≡ ok notice
  pub of_hardware : inputs.hardware ≡ ok hardware
  pub of_toolchain : collect_toolchain inputs.engines inputs.scan ≡ ok toolchain
  pub of_actions : collect_actions inputs.scan ≡ ok actions
  pub together :
      collected
      ≡ npm ++ build_requirements ++ submodules ++ notice ++ hardware ++ toolchain ++ actions

-- A document that `build_bom` returns holds the components of all collectors, none lost, with no
-- reference twice; each of its dependencies and of its compositions names only components of the
-- document, and the dependencies are those of the root component and of every other one.
pub build_bom-IsClosed :
    (inputs : Inputs) (bom : Bom)
    → build_bom inputs ≡ ok bom
    → (collected : List Component) × IsCollected inputs collected × IsClosed collected bom
unfolding build_bom
build_bom-IsClosed inputs bom h =
    let (root, _, h1) = bind_ok (collect_root inputs.project) _ bom h in
    let (build_requirements, b, h2) = bind_ok (collect_requirements inputs.project) _ bom h1 in
    let (npm, n, h3) = bind_ok (collect_npm inputs.hex_of_base64 inputs.packages) _ bom h2 in
    let (submodules, s, h4) =
      bind_ok (collect_submodules inputs.gitmodules inputs.tree inputs.status) _ bom h3 in
    let (notice, f, h5) = bind_ok (collect_notice_files inputs.digest_of notice_files) _ bom h4 in
    let (hardware, w, h6) = bind_ok inputs.hardware _ bom h5 in
    let (toolchain, t, h7) = bind_ok (collect_toolchain inputs.engines inputs.scan) _ bom h6 in
    let (actions, a, h8) = bind_ok (collect_actions inputs.scan) _ bom h7 in
    (
      npm ++ build_requirements ++ submodules ++ notice ++ hardware ++ toolchain ++ actions,
      record {
        npm = npm;
        build_requirements = build_requirements;
        submodules = submodules;
        notice = notice;
        hardware = hardware;
        toolchain = toolchain;
        actions = actions;
        of_npm = n;
        of_project = b;
        of_submodules = s;
        of_notice = f;
        of_hardware = w;
        of_toolchain = t;
        of_actions = a;
        together = refl;
      },
      assemble-IsClosed root _ inputs.scan.unpinned bom h8,
    )
