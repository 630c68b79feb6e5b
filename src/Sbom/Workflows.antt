-- ===== src/Sbom/Workflows.antt =====
-- tools/gen_sbom.py: `collect_actions` and `collect_toolchain` on what `scan_workflows` finds, whose
-- regular expressions are left out. A set of file names is a list without repetition.
use lca.Prelude.{Bool, List, [], ◌∷◌, ◌++◌, map, some, Result, ok, ◌>>=◌, map_result}
use lca.Text.{Text, codes, find?, split_on}
use lca.Trace.{text_lt}
use lca.Sbom.Entry.{SbomError, sorted, pair_lt, prop, draft, Component, component}
use lca.Sbom.Gitmodules.{partition}
use lca.Sbom.Npm.{rpartition}

-- What is pinned by a name and a version or commit, and the workflows that name it.
pub record Pinned : Type 0 where
  pub name : Text
  pub pin : Text
  pub files : List Text

pub record Action : Type 0 where
  pub slug : Text
  pub sha : Text
  pub version : Text
  pub files : List Text

pub record Scan : Type 0 where
  pub actions : List Action
  pub unpinned : List Text
  pub repo_refs : List Pinned
  pub containers : List (Text × List Text)
  pub pip : List Pinned
  pub apt : List (Text × List Text)
  pub python_versions : List Text

abbrev pub action_lt : Action → Action → Bool
unfolding text_lt
action_lt a b = pair_lt (a.slug, a.sha) (b.slug, b.sha)

abbrev pub pinned_lt : Pinned → Pinned → Bool
unfolding text_lt
pinned_lt a b = pair_lt (a.name, a.pin) (b.name, b.pin)

abbrev pub first_lt {ℓ} : {A : Type ℓ} → Text × A → Text × A → Bool
unfolding text_lt
first_lt (a, x) (b, y) = text_lt a b

unfoldable pub action_component : Action → Result SbomError Component
unfolding component sorted text_lt find?
action_component a =
    let sources = a.files in
    let (owner, name) = partition b'/' a.slug in
    component
      (record (draft (codes "action/" ++ a.slug ++ codes "@" ++ a.sha) (codes "application")
        (name)) {
          group = some owner;
          version = some a.sha;
          description =
              some (codes "GitHub Action pinned to a commit SHA (" ++ a.version ++ codes ")");
          noassertion_reason = some (
              codes
                "action licenses are not inventoried in NOTICE; the action is executed by GitHub, not redistributed here");
          purl = some (codes "pkg:github/" ++ a.slug ++ codes "@" ++ a.sha);
          external_references = (codes "vcs", codes "https://github.com/" ++ a.slug) ∷ [];
          properties =
              prop "lca1:action:release-tag" (a.version)
              ∷ prop "lca1:action:pinned-by" (codes "full commit SHA")
              ∷ prop "lca1:role" (codes "ci-action")
              ∷ map (λ (f : Text). prop "lca1:source" (codes ".github/workflows/" ++ f))
                  (sorted text_lt sources);
        })

unfoldable pub collect_actions : Scan → Result SbomError (List Component)
unfolding action_component sorted text_lt
collect_actions scan = map_result action_component (sorted action_lt scan.actions)

unfoldable pub engine_component : Text × Text → Result SbomError Component
unfolding component sorted text_lt
engine_component (name, version) =
    component
      (record (draft (codes "toolchain/" ++ name ++ codes "@" ++ version) (codes "application")
        (name)) {
          version = some version;
          description = some (codes "Build/verification runtime pinned by package.json engines");
          noassertion_reason = some (
              codes
                "host runtime is installed by CI, not redistributed here, and its license is not declared in this repository");
          properties =
              prop "lca1:role" (codes "toolchain:runtime")
              ∷ prop "lca1:source" (codes "package.json")
              ∷ [];
        })

unfoldable pub python_component : Text → Result SbomError Component
unfolding component sorted text_lt
python_component version =
    component
      (record (draft (codes "toolchain/python@" ++ version) (codes "application")
        (codes "python")) {
          version = some version;
          description = some (codes "CPython interpreter pinned by the CI workflows");
          noassertion_reason = some (
              codes
                "interpreter is installed by CI and its license is not declared in this repository");
          properties =
              prop "lca1:role" (codes "toolchain:runtime")
              ∷ prop "lca1:python:requires-python" (codes ">=3.10")
              ∷ prop "lca1:source" (codes ".github/workflows/ci.yml")
              ∷ [];
        })

unfoldable pub apt_component : Text × List Text → Result SbomError Component
unfolding component sorted text_lt
apt_component (name, sources) =
    component (record (draft (codes "toolchain/apt/" ++ name) (codes "application") (name)) {
      description = some (codes "Host tool installed unpinned from the Ubuntu runner archive");
      noassertion_reason =
          some (
            codes "distribution package: neither version nor license is pinned by this repository");
      properties =
          prop "lca1:role" (codes "toolchain:host-tool")
          ∷ prop "lca1:pin:gap" (codes "apt-get install without a version pin")
          ∷ prop "lca1:pin:mitigation"
              (codes "the resolved version is recorded per run into reports/")
          ∷ map (λ (f : Text). prop "lca1:source" (codes ".github/workflows/" ++ f))
              (sorted text_lt sources);
    })

unfoldable pub pip_component : Pinned → Result SbomError Component
unfolding component sorted text_lt
pip_component p =
    let sources = p.files in
    component
      (record (draft (codes "pypi/" ++ p.name ++ codes "@" ++ p.pin) (codes "library") (p.name)) {
        version = some p.pin;
        description = some (codes "Python tool pinned to an exact version by the CI workflows");
        noassertion_reason = some (codes "license is not declared in this repository");
        purl = some (codes "pkg:pypi/" ++ p.name ++ codes "@" ++ p.pin);
        properties =
            prop "lca1:role" (codes "toolchain:ci")
            ∷ prop "lca1:pin:kind" (codes "exact version, no hash")
            ∷ map (λ (f : Text). prop "lca1:source" (codes ".github/workflows/" ++ f))
                (sorted text_lt sources);
      })

unfoldable pub repo_component : Pinned → Result SbomError Component
unfolding component sorted text_lt find?
repo_component p =
    let sources = p.files in
    let (owner, name) = partition b'/' p.name in
    component
      (record (draft (codes "repo/" ++ p.name ++ codes "@" ++ p.pin) (codes "application") (name)) {
        group = some owner;
        version = some p.pin;
        description = some (codes "External repository checked out in CI, pinned to a commit SHA");
        noassertion_reason = some (codes "license is not inventoried in NOTICE");
        purl = some (codes "pkg:github/" ++ p.name ++ codes "@" ++ p.pin);
        external_references = (codes "vcs", codes "https://github.com/" ++ p.name) ∷ [];
        properties =
            prop "lca1:role" (codes "toolchain:ci")
            ∷ prop "lca1:pin:kind" (codes "full commit SHA")
            ∷ map (λ (f : Text). prop "lca1:source" (codes ".github/workflows/" ++ f))
                (sorted text_lt sources);
      })

unfoldable pub container_component : Text × List Text → Result SbomError Component
unfolding component sorted text_lt split_on
container_component (image, sources) =
    let (repository, tag) = rpartition b':' image in
    component (record (draft (codes "container/" ++ image) (codes "container") (repository)) {
      version = some tag;
      description = some (codes "Container image used by the physical-implementation flow");
      noassertion_reason = some (codes "image license is not declared in this repository");
      external_references = (codes "distribution", codes "https://" ++ repository) ∷ [];
      properties =
          prop "lca1:role" (codes "toolchain:physical-implementation")
          ∷ prop "lca1:container:reference" (image)
          ∷ prop "lca1:container:digest" (codes "NOASSERTION")
          ∷ prop "lca1:pin:gap" (
              codes
                "pinned by mutable version tag, not by immutable sha256 digest; a retag would change the tool without changing this SBOM")
          ∷ map (λ (f : Text). prop "lca1:source" (codes ".github/workflows/" ++ f))
              (sorted text_lt sources);
    })

unfoldable pub collect_toolchain : List (Text × Text) → Scan → Result SbomError (List Component)
unfolding engine_component python_component apt_component pip_component repo_component
    container_component sorted text_lt
collect_toolchain engines scan = do
  runtimes ← map_result engine_component (sorted first_lt engines)
  pythons ← map_result python_component (sorted text_lt scan.python_versions)
  hosts ← map_result apt_component (sorted first_lt scan.apt)
  tools ← map_result pip_component (sorted pinned_lt scan.pip)
  repositories ← map_result repo_component (sorted pinned_lt scan.repo_refs)
  images ← map_result container_component (sorted first_lt scan.containers)
  ok (runtimes ++ pythons ++ hosts ++ tools ++ repositories ++ images)
