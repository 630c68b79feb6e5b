-- ===== src/Sbom/Hardware.antt =====
-- tools/gen_sbom.py: `collect_hardware` on the three documents that it reads. `str` of a value that is
-- no text is an argument; a value that becomes a name, a version or a description is a text.
use lca.Prelude.{List, [], ◌∷◌, ◌++◌, none, some, Result, ok, err, ◌>>=◌}
use lca.Floats.{Floats}
use lca.Text.{Text, codes}
use lca.Json.{Json, string, object, Fields, get}
use lca.Trace.{text_lt}
use lca.Sbom.Entry.{SbomError, key_error, type_error, sorted, prop, draft, Component, component}

module _ (F : Floats) (show : Json F.Float → Text) where
  open F use {Float}

  -- `str(value)`
  abbrev pub text_of : Json Float → Text
  text_of (string s) = s
  text_of v = show v

  abbrev pub value_of : Text → Fields Float → Result SbomError (Json Float)
  value_of k d = elim (get k d) [ none ↦ err key_error | some v ↦ ok v ]

  -- `d[k]`, as a text and as a dictionary.
  abbrev pub text_at : Text → Fields Float → Result SbomError Text
  text_at k d = value_of k d >>= λ v. ok (text_of v)

  abbrev pub inner_dict : Json Float → Result SbomError (Fields Float)
  inner_dict (object d) = ok d
  inner_dict v = err type_error

  abbrev pub dict_at : Text → Fields Float → Result SbomError (Fields Float)
  dict_at k d = value_of k d >>= inner_dict

  unfoldable pub device_component : Fields Float → Fields Float → Result SbomError Component
  unfolding component sorted text_lt
  device_component release pack = do
    route ← dict_at (codes "route") release
    physical ← dict_at (codes "package") pack
    program ← dict_at (codes "program") release
    submission ← dict_at (codes "required_submission") route
    id ← text_at (codes "release_id") release
    as_of ← text_at (codes "as_of") release
    purpose ← text_at (codes "purpose") program
    status ← text_at (codes "release_status") release
    vendor ← text_at (codes "vendor") route
    service ← text_at (codes "service") route
    shuttle ← text_at (codes "shuttle") route
    process ← text_at (codes "process") route
    process_status ← text_at (codes "process_status") route
    family ← text_at (codes "family") physical
    pin_count ← text_at (codes "pin_count") physical
    package_status ← text_at (codes "package_status") pack
    format ← text_at (codes "format") submission
    component (record (draft (codes "hardware/device/" ++ id) (codes "device") (id)) {
      version = some as_of;
      description = some purpose;
      licenses = some (codes "Apache-2.0" ∷ []);
      properties =
          prop "lca1:hardware:kind" (codes "asic-release-contract")
          ∷ prop "lca1:release:status" (status)
          ∷ prop "lca1:route:vendor" (vendor)
          ∷ prop "lca1:route:service" (service)
          ∷ prop "lca1:route:shuttle" (shuttle)
          ∷ prop "lca1:route:process" (process)
          ∷ prop "lca1:route:process-status" (process_status)
          ∷ prop "lca1:package:family" (family ++ pin_count)
          ∷ prop "lca1:package:status" (package_status)
          ∷ prop "lca1:submission:format" (format)
          ∷ prop "lca1:source" (codes "fabrication/rev_a_release.json")
          ∷ prop "lca1:source" (codes "fabrication/rev_a_package.json")
          ∷ [];
    })

  unfoldable pub harness_component : Fields Float → Fields Float → Result SbomError Component
  unfolding component sorted text_lt
  harness_component release pack = do
    route ← dict_at (codes "route") release
    shell ← dict_at (codes "shell") route
    source_shell ← dict_at (codes "source_shell") pack
    commit ← text_at (codes "commit") shell
    name ← text_at (codes "name") shell
    repository ← text_at (codes "repository") shell
    datasheet ← text_at (codes "datasheet") source_shell
    top_module ← text_at (codes "top_module") shell
    template_tree ← text_at (codes "template_tree") shell
    user_area ← text_at (codes "user_area_mm2") shell
    gpio_count ← text_at (codes "gpio_count") shell
    freeze_status ← text_at (codes "freeze_status") shell
    component
        (record (draft (codes "hardware/harness/openframe@" ++ commit) (codes "framework") (name)) {
          group = some (codes "chipfoundry");
          version = some commit;
          description =
              some (codes "OpenFrame user-project harness the Rev-A user area plugs into");
          noassertion_reason = some (
              codes
                "upstream openframe_user_project terms are not inventoried in NOTICE; the repository vendors no OpenFrame source");
          purl = some (codes "pkg:github/chipfoundry/openframe_user_project@" ++ commit);
          external_references = (codes "vcs", repository) ∷ (codes "documentation", datasheet) ∷ [];
          properties =
              prop "lca1:hardware:kind" (codes "soc-harness")
              ∷ prop "lca1:harness:top-module" (top_module)
              ∷ prop "lca1:harness:template-tree" (template_tree)
              ∷ prop "lca1:harness:user-area-mm2" (user_area)
              ∷ prop "lca1:harness:gpio-count" (gpio_count)
              ∷ prop "lca1:harness:freeze-status" (freeze_status)
              ∷ prop "lca1:source" (codes "fabrication/rev_a_release.json")
              ∷ [];
        })

  unfoldable pub pdk_component : Fields Float → Fields Float → Result SbomError Component
  unfolding component sorted text_lt
  pdk_component release harden = do
    route ← dict_at (codes "route") release
    pdk ← text_at (codes "PDK") harden
    process ← text_at (codes "process") route
    process_status ← text_at (codes "process_status") route
    component (record (draft (codes "hardware/pdk/" ++ pdk) (codes "library") (pdk)) {
      description =
          some (process ++ codes " process design kit variant used by the hardening flow");
      noassertion_reason = some (
          codes
            "the repository vendors no PDK files and declares no PDK license; SKY130 terms come with the PDK, which is downloaded at flow time");
      properties =
          prop "lca1:hardware:kind" (codes "pdk")
          ∷ prop "lca1:pdk:version-pin"
              (codes "none: resolved by the LibreLane container at run time")
          ∷ prop "lca1:process" (process)
          ∷ prop "lca1:process-status" (process_status)
          ∷ prop "lca1:source" (codes "hardening/lca_butterfly/config.json")
          ∷ [];
    })

  unfoldable pub cells_component : Fields Float → Result SbomError Component
  unfolding component sorted text_lt
  cells_component harden = do
    library ← text_at (codes "STD_CELL_LIBRARY") harden
    pdk ← text_at (codes "PDK") harden
    component (record (draft (codes "hardware/stdcells/" ++ library) (codes "library") (library)) {
      description = some (codes "Standard cell library selected for the SKY130 hardening flow");
      noassertion_reason = some (
          codes
            "the repository vendors no cell views and declares no cell library license; terms ship with the PDK");
      properties =
          prop "lca1:hardware:kind" (codes "standard-cell-library")
          ∷ prop "lca1:pdk" (pdk)
          ∷ prop "lca1:source" (codes "hardening/lca_butterfly/config.json")
          ∷ [];
    })

  unfoldable pub macro_component : Fields Float → Result SbomError Component
  unfolding component sorted text_lt
  macro_component release = do
    memory ← dict_at (codes "memory") release
    baseline ← dict_at (codes "baseline") memory
    experiment ← dict_at (codes "experiment") memory
    name ← text_at (codes "macro") baseline
    status ← text_at (codes "status") baseline
    words ← text_at (codes "words_per_instance") baseline
    bits ← text_at (codes "bits_per_word") baseline
    interface ← text_at (codes "interface") baseline
    area ← text_at (codes "area_mm2_each_vendor_published") baseline
    instances ← text_at (codes "instances") baseline
    bytes ← text_at (codes "logical_capacity_bytes") baseline
    more_instances ← text_at (codes "instances") experiment
    more_bytes ← text_at (codes "logical_capacity_bytes") experiment
    component (record (draft (codes "hardware/macro/" ++ name) (codes "library") (name)) {
      group = some (codes "chipfoundry");
      description = some (codes "Compiled SRAM macro selected for the Rev-A memory baseline");
      noassertion_reason = some (codes "commercial IP: " ++ status);
      properties =
          prop "lca1:hardware:kind" (codes "sram-macro")
          ∷ prop "lca1:macro:words-per-instance" (words)
          ∷ prop "lca1:macro:bits-per-word" (bits)
          ∷ prop "lca1:macro:interface" (interface)
          ∷ prop "lca1:macro:area-mm2-each-vendor-published" (area)
          ∷ prop "lca1:memory:baseline-instances" (instances)
          ∷ prop "lca1:memory:baseline-bytes" (bytes)
          ∷ prop "lca1:memory:experiment-instances" (more_instances)
          ∷ prop "lca1:memory:experiment-bytes" (more_bytes)
          ∷ prop "lca1:macro:acquisition-status" (status)
          ∷ prop "lca1:source" (codes "fabrication/rev_a_release.json")
          ∷ [];
    })

  unfoldable pub collect_hardware :
      Fields Float → Fields Float → Fields Float → Result SbomError (List Component)
  unfolding device_component harness_component pdk_component cells_component macro_component
  collect_hardware release pack harden = do
    device ← device_component release pack
    harness ← harness_component release pack
    pdk ← pdk_component release harden
    cells ← cells_component harden
    macro ← macro_component release
    ok (device ∷ harness ∷ pdk ∷ cells ∷ macro ∷ [])
