-- ===== src/Sbom/Submodules.antt =====
-- tools/gen_sbom.py: `collect_submodules` on the text of .gitmodules and what `git` prints, none
-- where there is no file and where a command fails.
use lca.Prelude.{
  Bool, true, false, if◌then◌else◌, List, [], ◌∷◌, ◌++◌, Option, none, some, Result, ok, ◌>>=◌,
  map_result,
}
use lca.Text.{Text, codes, text_eq, strip_prefix?, splitlines, has_char, split_on}
use lca.Dict.{Dict, lookup, get_or}
use lca.Trace.{text_lt}
use mathlib.Core.List.{reverse}
use lca.Sbom.Entry.{SbomError, sorted, prop, draft, Component, component}
use lca.Sbom.Gitmodules.{parse_gitmodules, pin_lines, status_lines}
use lca.Sbom.Npm.{rpartition}

-- What NOTICE says of two of the submodules: the licences and a note.
abbrev pub declared_licenses : Text → List Text × Text
declared_licenses path =
    if text_eq path (codes "third_party/PQClean")
    then (
      codes "CC0-1.0" ∷ codes "MIT" ∷ codes "Apache-2.0" ∷ [],
      codes
          "NOTICE: licensed per scheme, predominantly CC0-1.0 with some MIT and Apache-2.0 components",
    )
    else if text_eq path (codes "third_party/picorv32")
    then (codes "ISC" ∷ [], codes "NOTICE: ISC, see the submodule COPYING file")
    else ([], [])

abbrev pub checkout_state : Option Bool → Text
checkout_state none = codes "unknown"
checkout_state (some true) = codes "true"
checkout_state (some false) = codes "false"

abbrev pub checkout_gap : Option Bool → List (Text × Text)
checkout_gap (some false) =
    prop "lca1:submodule:gap" (
      codes
        "working tree not populated; per-file contents and the complete license inventory inside the submodule are not covered by this SBOM")
    ∷ []
checkout_gap present = []

abbrev pub sha_gap : Option Text → List (Text × Text)
sha_gap (some sha) = []
sha_gap none =
    prop "lca1:submodule:gap" (codes "gitlink SHA unavailable: generated outside a git checkout")
    ∷ []

-- `text.removeprefix(prefix)` and `text.removesuffix(suffix)`
abbrev pub remove_prefix : Text → Text → Text
unfolding strip_prefix?
remove_prefix prefix s = elim (strip_prefix? prefix s) [ none ↦ s | some rest ↦ rest ]

abbrev pub remove_suffix : Text → Text → Text
unfolding strip_prefix?
remove_suffix suffix s = elim (strip_prefix? (reverse suffix) (reverse s)) [
  | none ↦ s
  | some rest ↦ reverse rest
]

abbrev pub purl_of : Text → Option Text → Option Text
unfolding strip_prefix? has_char
purl_of url none = none
purl_of url (some sha) =
    let slug = remove_suffix (codes ".git") (remove_prefix (codes "https://github.com/") url) in
    if has_char b'/' slug then some (codes "pkg:github/" ++ slug ++ codes "@" ++ sha) else none

unfoldable pub submodule_component : Dict Text → Dict Bool → Dict Text → Result SbomError Component
unfolding component strip_prefix? has_char lookup get_or split_on
submodule_component pinned checked_out m =
    let path = get_or (codes "path") [] m in
    let url = get_or (codes "url") [] m in
    let sha = lookup path pinned in
    let present = lookup path checked_out in
    let (spdx_ids, note) = declared_licenses path in
    component
      (record (draft
        (codes "submodule/"
          ++ path
          ++ codes "@"
          ++ elim sha [ none ↦ codes "unpinned" | some s ↦ s ])
        (codes "library") ((rpartition b'/' path).1)) {
          group = some (codes "third_party");
          version = some (elim sha [ none ↦ codes "NOASSERTION" | some s ↦ s ]);
          description = some (codes "git submodule pinned at " ++ path);
          licenses = elim spdx_ids [ [] ↦ none | id ∷ ids ↦ some (id ∷ ids) ];
          noassertion_reason = elim spdx_ids [
            | [] ↦ some (codes "not inventoried in NOTICE")
            | id ∷ ids ↦ none
          ];
          purl = purl_of url sha;
          external_references = elim url [ [] ↦ [] | c ∷ s ↦ (codes "vcs", c ∷ s) ∷ [] ];
          properties =
              prop "lca1:source" (codes ".gitmodules")
                ∷ prop "lca1:submodule:path" path
                ∷ prop "lca1:submodule:url" url
                ∷ prop "lca1:submodule:sha-source"
                    (elim sha [ none ↦ codes "unavailable" | some s ↦ codes "git gitlink at HEAD" ])
                ∷ prop "lca1:submodule:checked-out" (checkout_state present)
                ∷ sha_gap sha
              ++ checkout_gap present
              ++ elim note [ [] ↦ [] | c ∷ s ↦ prop "lca1:license:source" (c ∷ s) ∷ [] ];
        })

abbrev pub module_lt : Dict Text → Dict Text → Bool
unfolding get_or text_lt
module_lt m n = text_lt (get_or (codes "path") [] m) (get_or (codes "path") [] n)

abbrev pub lines_of : Option Text → List Text
unfolding splitlines
lines_of none = []
lines_of (some printed) = splitlines printed

unfoldable pub collect_submodules :
    Option Text → Option Text → Option Text → Result SbomError (List Component)
unfolding parse_gitmodules pin_lines status_lines submodule_component sorted get_or text_lt
    splitlines
collect_submodules none tree status = ok []
collect_submodules (some gitmodules) tree status = do
  modules ← parse_gitmodules gitmodules
  map_result
      (submodule_component (pin_lines [] (lines_of tree)) (status_lines [] (lines_of status)))
      (sorted module_lt modules)
