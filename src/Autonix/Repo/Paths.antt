-- ===== src/Autonix/Repo/Paths.antt =====
-- Paths of autonix/src/repo. A path is its components, the last one first; a component that is no
-- text (`..`, or one that is not Unicode) is `none`.
use procurator.Prelude.{String, Option, none, some, List, [], ◌∷◌, str_eq, if◌then◌else◌}
use procurator.Prelude.Strings.{rsplit_once}

abbrev pub PathBuf : Type 0
PathBuf = List (Option String)

-- `file_name` and `to_str`
unfoldable pub file_name : PathBuf → Option String
file_name [] = none
file_name (name ∷ parent) = name

-- `extension` of a file's name: what stands behind its last dot, unless that is its first character.
unfoldable pub extension : String → Option String
extension name = elim (rsplit_once b'.' name) [
  | none ↦ none
  | some (stem, ext) ↦ if str_eq stem "" then none else some ext
]
