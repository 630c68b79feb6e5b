-- ===== src/Sbom/Gitmodules.antt =====
-- tools/gen_sbom.py: `parse_gitmodules`, and the two readings of what `git` prints.
use lca.Prelude.{
  ℕ, ◌==◌, ◌&&◌, Bool, not, if◌then◌else◌, List, [], ◌∷◌, ◌++◌, Option, none, some, Result, ok, err,
  ◌>>=◌,
}
use lca.Text.{
  Text, codes, text_eq, starts_with, find?, strip, split, split_on, splitlines, has_char,
}
use lca.Dict.{Dict, insert, lookup}
use lca.Sbom.Entry.{SbomError, index_error}

-- `text.partition(c)`: what stands before and after the first of the characters, and all of the
-- text and nothing where there is none.
abbrev pub partition : ℕ → Text → Text × Text
unfolding find?
partition c s = elim (find? (c ∷ []) s) [ none ↦ (s, []) | some around ↦ around ]

-- The modules that are complete, and the one that further lines add to.
pub record Reading : Type 0 where
  pub modules : List (Dict Text)
  pub current : Option (Dict Text)

abbrev pub closed : Reading → List (Dict Text)
closed r = elim r.current [ none ↦ r.modules | some m ↦ r.modules ++ m ∷ [] ]

-- `line.split('"')[1]`
abbrev pub quoted_name : Text → Result SbomError Text
unfolding split_on
quoted_name line = elim (split_on b'"' line) [
  | [] ↦ err index_error
  | before ∷ rest ↦ elim rest [ [] ↦ err index_error | name ∷ more ↦ ok name ]
]

abbrev pub add_setting : Reading → Text → Reading
unfolding find? strip insert has_char starts_with
add_setting r line = elim r.current [
  | none ↦ r
  | some m ↦
      if has_char b'=' line && not (starts_with (codes "#") line)
      then (let (key, value) = partition b'=' line in
          record r { current = some (insert (strip key) (strip value) m) })
      else r
]

unfoldable pub read_module_line : Reading → Text → Result SbomError Reading
unfolding find? strip insert has_char starts_with split_on
read_module_line r raw =
    let line = strip raw in
    if starts_with (codes "[submodule ") line
    then (quoted_name line >>= λ name.
        ok record { modules = closed r; current = some ((codes "name", name) ∷ []) })
    else ok (add_setting r line)

unfoldable pub read_module_lines : Reading → List Text → Result SbomError Reading
unfolding read_module_line
read_module_lines r [] = ok r
read_module_lines r (line ∷ lines) =
    read_module_line r line >>= λ next. read_module_lines next lines

abbrev pub with_path : List (Dict Text) → List (Dict Text)
unfolding lookup
with_path [] = []
with_path (m ∷ ms) =
    let rest = with_path ms in elim (lookup (codes "path") m) [ none ↦ rest | some p ↦ m ∷ rest ]

unfoldable pub parse_gitmodules : Text → Result SbomError (List (Dict Text))
unfolding read_module_lines splitlines lookup
parse_gitmodules text = do
  r ← read_module_lines (record { modules = []; current = none }) (splitlines text)
  ok (with_path (closed r))

-- One line of `git ls-tree`: a tab stands before the path.
abbrev pub pin_line : Dict Text → Text → Dict Text
unfolding find? strip split insert
pin_line pinned line =
    let (meta, path) = partition 9 line in
    elim (split meta) [
      | mode ∷ kind ∷ sha ∷ [] ↦
          if text_eq kind (codes "commit") then insert (strip path) sha pinned else pinned
      | words ↦ pinned
    ]

unfoldable pub pin_lines : Dict Text → List Text → Dict Text
unfolding find? strip split insert
pin_lines pinned [] = pinned
pin_lines pinned (line ∷ lines) = pin_lines (pin_line pinned line) lines

-- One line of `git submodule status`: a minus sign in front says that the module is not checked
-- out.
abbrev pub status_line : Dict Bool → Text → Dict Bool
unfolding strip split insert
status_line checked_out [] = checked_out
status_line checked_out (flag ∷ body) = elim (split (strip body)) [
  | sha ∷ path ∷ more ↦ insert path (not (flag == b'-')) checked_out
  | words ↦ checked_out
]

unfoldable pub status_lines : Dict Bool → List Text → Dict Bool
unfolding strip split insert
status_lines checked_out [] = checked_out
status_lines checked_out (line ∷ lines) = status_lines (status_line checked_out line) lines
