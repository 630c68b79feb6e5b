-- ===== src/Sbom/Examples.antt =====
-- Tests of the SBOM generator, and its theorem at a small repository.
use Prim.Native.String.{String}
use lca.Prelude.{ℤ, ◌≡◌, refl, List, [], ◌∷◌, none, some, Result, ok, err}
use lca.Text.{Text, codes}
use lca.Json.{string, object, Fields, end, field}
use lca.Floats.Integers.{integers}
use lca.Sbom.{
  collect_hardware, SbomError, Component, parse_gitmodules, NpmEntry, collect_npm, collect_root,
  collect_requirements, collect_notice_files, collect_submodules, Scan, collect_actions,
  collect_toolchain, Bom, Inputs, build_bom, assemble, duplicate_refs, refs_of, IsClosed,
  IsCollected, build_bom-IsClosed,
}

abbrev gitmodules_text : Text
gitmodules_text =
    codes
      "[submodule \"third_party/picorv32\"]\n path = third_party/picorv32\n url = https://github.com/YosysHQ/picorv32.git\n"

parse_one :
    parse_gitmodules gitmodules_text
    ≡ ok (
        ((codes "name", codes "third_party/picorv32")
          ∷ (codes "path", codes "third_party/picorv32")
          ∷ (codes "url", codes "https://github.com/YosysHQ/picorv32.git")
          ∷ [])
        ∷ [])
unfolding parse_gitmodules
parse_one = refl

abbrev yosys_entry : NpmEntry
yosys_entry = record {
  version = some (codes "0.66.1");
  integrity = some (codes "sha512-AAAA");
  resolved = some (codes "https://registry.npmjs.org/yosys.tgz");
  license = some (codes "ISC");
}

abbrev scan_found : Scan
scan_found = record {
  actions =
      record {
        slug = codes "actions/checkout";
        sha = codes "11bd";
        version = codes "v4";
        files = codes "ci.yml" ∷ [];
      }
      ∷ [];
  unpinned = [];
  repo_refs = [];
  containers = (codes "ghcr.io/efabless/openlane:2.1", codes "ci.yml" ∷ []) ∷ [];
  pip = [];
  apt = (codes "iverilog", codes "ci.yml" ∷ []) ∷ [];
  python_versions = codes "3.12.12" ∷ [];
}

abbrev names_of : List String → Fields ℤ
names_of [] = end
names_of (k ∷ ks) = field (codes k) (string (codes k)) (names_of ks)

abbrev with_dicts : List (String × Fields ℤ) → Fields ℤ → Fields ℤ
with_dicts [] rest = rest
with_dicts ((k, d) ∷ ds) rest = field (codes k) (object d) (with_dicts ds rest)

abbrev release : Fields ℤ
release =
    with_dicts
      ((
        "route",
        with_dicts
            ((
              "shell",
              names_of (
                  "commit" ∷ "name" ∷ "repository" ∷ "top_module" ∷ "template_tree"
                  ∷ "user_area_mm2" ∷ "gpio_count" ∷ "freeze_status" ∷ []),
            )
              ∷ ("required_submission", names_of ("format" ∷ []))
              ∷ [])
            (names_of ("vendor" ∷ "service" ∷ "shuttle" ∷ "process" ∷ "process_status" ∷ [])),
      )
        ∷ (
          "memory",
          with_dicts
              ((
                "baseline",
                names_of (
                    "macro" ∷ "status" ∷ "words_per_instance" ∷ "bits_per_word" ∷ "interface"
                    ∷ "area_mm2_each_vendor_published" ∷ "instances" ∷ "logical_capacity_bytes"
                    ∷ []),
              )
                ∷ ("experiment", names_of ("instances" ∷ "logical_capacity_bytes" ∷ []))
                ∷ [])
              end,
        )
        ∷ ("program", names_of ("purpose" ∷ []))
        ∷ [])
      (names_of ("release_id" ∷ "as_of" ∷ "release_status" ∷ []))

abbrev pack : Fields ℤ
pack =
    with_dicts
      (("package", names_of ("family" ∷ "pin_count" ∷ []))
        ∷ ("source_shell", names_of ("datasheet" ∷ []))
        ∷ [])
      (names_of ("package_status" ∷ []))

abbrev harden : Fields ℤ
harden = names_of ("PDK" ∷ "STD_CELL_LIBRARY" ∷ [])

abbrev small : Inputs
small = record {
  scan = scan_found;
  project = record {
    name = codes "lca-1";
    version = codes "0.1.0";
    description = codes "models";
    requires_python = codes ">=3.10";
    dependency_count = codes "0";
    build_requires = codes "setuptools>=69" ∷ [];
  };
  packages = (codes "node_modules/@yowasp/yosys", yosys_entry) ∷ [];
  gitmodules = some gitmodules_text;
  tree = none;
  status = some (codes "-b6f2 third_party/picorv32\n");
  digest_of = λ path. none;
  hex_of_base64 = λ encoded. some (codes "000000");
  hardware = collect_hardware integers (λ v. codes "5") release pack harden;
  engines = (codes "node", codes "22") ∷ [];
}

abbrev blank : Component
blank = record {
  bom_ref = [];
  ctype = [];
  name = [];
  group = none;
  version = none;
  description = none;
  licenses = [];
  purl = none;
  hashes = [];
  external_references = [];
  properties = [];
}

abbrev document_or : Result SbomError Bom → Bom
document_or (ok bom) = bom
document_or (err e) = record {
  root_component = blank;
  unpinned_actions = [];
  components = [];
  dependencies = [];
  composition_groups = [];
}

abbrev small_bom : Bom
unfolding build_bom
small_bom = document_or (build_bom small)

small_refs :
    refs_of small_bom.components
    ≡ codes "action/actions/checkout@11bd"
      ∷ codes "container/ghcr.io/efabless/openlane:2.1"
      ∷ codes "hardware/device/release_id"
      ∷ codes "hardware/harness/openframe@commit"
      ∷ codes "hardware/macro/macro"
      ∷ codes "hardware/pdk/PDK"
      ∷ codes "hardware/stdcells/STD_CELL_LIBRARY"
      ∷ codes "npm/@yowasp/yosys@0.66.1"
      ∷ codes "pypi/setuptools"
      ∷ codes "submodule/third_party/picorv32@unpinned"
      ∷ codes "toolchain/apt/iverilog"
      ∷ codes "toolchain/node@22"
      ∷ codes "toolchain/python@3.12.12"
      ∷ []
unfolding small_bom build_bom collect_npm collect_root collect_requirements collect_submodules
    collect_notice_files collect_toolchain collect_actions collect_hardware assemble
small_refs = refl

small_builds : build_bom small ≡ ok small_bom
unfolding small_bom build_bom collect_npm collect_root collect_requirements collect_submodules
    collect_notice_files collect_toolchain collect_actions collect_hardware assemble
small_builds = refl

-- The same package twice.
assemble-twice : assemble blank (blank ∷ blank ∷ []) [] ≡ err (duplicate_refs ([] ∷ []))
unfolding assemble
assemble-twice = refl

build_bom-IsClosed_example :
    (collected : List Component) × IsCollected small collected × IsClosed collected small_bom
build_bom-IsClosed_example = build_bom-IsClosed small small_bom small_builds
