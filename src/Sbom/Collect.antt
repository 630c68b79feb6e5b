-- ===== src/Sbom/Collect.antt =====
-- tools/gen_sbom.py: `collect_python` on what pyproject.toml holds, and `collect_notice_files`. The
-- digests of files are an argument.
use lca.Prelude.{
  if◌then◌else◌, List, [], ◌∷◌, ◌++◌, Option, none, some, Result, ok, ◌>>=◌, map_result,
}
use lca.Text.{Text, codes, has_char}
use lca.Trace.{text_lt}
use lca.Sbom.Entry.{SbomError, sorted, prop, draft, Component, component}

abbrev pub repo_url : Text
repo_url = codes "https://github.com/0xSoftBoi/LCA-1"

pub record Project : Type 0 where
  pub name : Text
  pub version : Text
  pub description : Text
  pub requires_python : Text
  pub dependency_count : Text
  pub build_requires : List Text

unfoldable pub collect_root : Project → Result SbomError Component
unfolding component
collect_root p =
    component (record (draft (codes "lca1@" ++ p.version) (codes "application") p.name) {
      version = some p.version;
      description = some p.description;
      licenses = some (codes "Apache-2.0" ∷ []);
      purl = some (codes "pkg:generic/" ++ p.name ++ codes "@" ++ p.version);
      external_references =
          (codes "vcs", repo_url)
          ∷ (codes "website", repo_url)
          ∷ (codes "license", repo_url ++ codes "/blob/main/LICENSE")
          ∷ [];
      properties =
          prop "SPDX-License-Identifier" (codes "Apache-2.0")
          ∷ prop "lca1:python:requires-python" p.requires_python
          ∷ prop "lca1:python:runtime-dependencies" p.dependency_count
          ∷ prop "lca1:source" (codes "pyproject.toml")
          ∷ [];
    })

-- `re.split(r"[<>=!~\[ ]", requirement, maxsplit=1)[0]`
abbrev pub requirement_name : Text → Text
unfolding has_char
requirement_name [] = []
requirement_name (c ∷ s) = if has_char c (codes "<>=!~[ ") then [] else c ∷ requirement_name s

unfoldable pub requirement_component : Text → Result SbomError Component
unfolding component has_char
requirement_component requirement =
    component
      (record (draft (codes "pypi/" ++ requirement_name requirement) (codes "library")
        (requirement_name requirement)) {
          noassertion_reason = some (
              codes
                "build-system requirement; pyproject.toml declares a version range, not a license");
          properties =
              prop "lca1:python:build-requirement" requirement
              ∷ prop "lca1:source" (codes "pyproject.toml")
              ∷ [];
        })

unfoldable pub collect_requirements : Project → Result SbomError (List Component)
unfolding requirement_component sorted text_lt
collect_requirements p = map_result requirement_component (sorted text_lt p.build_requires)

-- A file of NOTICE: its path, its licence and what it is.
pub record NoticeFile : Type 0 where
  pub relative : Text
  pub spdx_id : Text
  pub description : Text

abbrev pub notice_files : List NoticeFile
notice_files =
    record {
      relative = codes "firmware/fips202_lca.c";
      spdx_id = codes "CC0-1.0";
      description = codes "PQClean-derived FIPS 202 permutation; public domain per NOTICE.";
    }
    ∷ record {
      relative = codes "firmware/fips202.h";
      spdx_id = codes "CC0-1.0";
      description = codes "PQClean-derived FIPS 202 header; public domain per NOTICE.";
    }
    ∷ record {
      relative = codes "verification/vectors/external/cctv_mlkem768_ntt.json";
      spdx_id = codes "CC0-1.0";
      description =
          codes
            "C2SP/CCTV ML-KEM-768 intermediate values; source URL and SHA-256 recorded inside the file.";
    }
    ∷ []

abbrev pub notice_component : NoticeFile → Text → Result SbomError Component
unfolding component
notice_component file digest =
    component (record (draft (codes "file/" ++ file.relative) (codes "file") file.relative) {
      licenses = some (file.spdx_id ∷ []);
      description = some file.description;
      hashes = (codes "SHA-256", digest) ∷ [];
      properties =
          prop "lca1:license:source" (codes "NOTICE")
          ∷ prop "lca1:role" (codes "third-party-derived-source")
          ∷ [];
    })

-- The digest of a file is none where there is no such file.
unfoldable pub collect_notice_files :
    (Text → Option Text) → List NoticeFile → Result SbomError (List Component)
unfolding component
collect_notice_files digest_of [] = ok []
collect_notice_files digest_of (file ∷ files) = do
  later ← collect_notice_files digest_of files
  elim (digest_of file.relative) [
    | none ↦ ok later
    | some digest ↦ notice_component file digest >>= λ c. ok (c ∷ later)
  ]
