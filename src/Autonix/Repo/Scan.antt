-- ===== src/Autonix/Repo/Scan.antt =====
-- autonix/src/repo/scan.rs: what the files of a directory are, and the record of those found.
use procurator.Prelude.{
  ℕ, String, ◌+◌, ◌%◌, Bool, true, false, not, ◌||◌, Option, none, some, List, [], ◌∷◌, ◌++◌, ◌==◌,
  if◌then◌else◌,
}
use mathlib.Core.Option
use procurator.Prelude.Strings.{one_of}
use procurator.Autonix.Mapping.Languages.{Language, from_extension}
use procurator.Autonix.Mapping.LockFiles.{LockFile, lock_file_of}
use procurator.Autonix.Mapping.Manifests.{ManifestFile, manifest_of}
use procurator.Autonix.Mapping.Tasks.{TaskFile, task_file_of}
use procurator.Autonix.Mapping.CiCd.{CiCdFile, ci_cd_file_of}
use procurator.Autonix.Mapping.Containers.{ContainerFile}
use procurator.Autonix.Repo.Paths.{PathBuf, file_name, extension}

unfoldable pub ignored_dir_basenames : List String
ignored_dir_basenames =
    ".git" ∷ ".hg" ∷ ".svn" ∷ "node_modules" ∷ ".yarn" ∷ ".pnpm-store" ∷ ".turbo" ∷ ".nx" ∷ ".next"
    ∷ ".nuxt" ∷ ".svelte-kit" ∷ ".parcel-cache" ∷ "target" ∷ ".venv" ∷ "venv" ∷ "env"
    ∷ "__pycache__" ∷ ".tox" ∷ ".nox" ∷ ".pytest_cache" ∷ ".mypy_cache" ∷ ".ruff_cache" ∷ "dist"
    ∷ "build" ∷ "out" ∷ "coverage" ∷ ".cache" ∷ ".direnv" ∷ ".idea" ∷ ".vscode" ∷ "vendor"
    ∷ ".terraform" ∷ []

unfoldable pub should_ignore_dir : PathBuf → Bool
should_ignore_dir path = elim (file_name path) [
  | some name ↦ one_of name ignored_dir_basenames
  | none ↦ false
]

pub record FilePath {ℓ} (T : Type ℓ) : Type ℓ where
  pub kind : T
  pub path : PathBuf

pub data FileType : Type 0 where
  manifest : FilePath ManifestFile → FileType
  lockfile : FilePath LockFile → FileType
  task_file : FilePath TaskFile → FileType
  cicd_file : FilePath CiCdFile → FileType
  container_file : FilePath ContainerFile → FileType
  regular : Language → FileType
  unknown : FileType

unfoldable pub regular_type : String → FileType
regular_type filename = elim (extension filename) [
  | none ↦ unknown
  | some ext ↦ elim (from_extension ext) [ some language ↦ regular language | none ↦ unknown ]
]

-- The first of the mappings that knows the file's name.
unfoldable pub named_type : String → PathBuf → FileType
named_type filename path = elim (manifest_of filename) [
  | some kind ↦ manifest (record { kind = kind; path = path })
  | none ↦ elim (lock_file_of filename) [
    | some kind ↦ lockfile (record { kind = kind; path = path })
    | none ↦ elim (task_file_of filename) [
      | some kind ↦ task_file (record { kind = kind; path = path })
      | none ↦ elim (ci_cd_file_of filename) [
        | some kind ↦ cicd_file (record { kind = kind; path = path })
        | none ↦ regular_type filename
      ]
    ]
  ]
]

-- `From<PathBuf>`
unfoldable pub file_type : PathBuf → FileType
file_type path = elim (file_name path) [ some filename ↦ named_type filename path | none ↦ unknown ]

-- `HashMap<Language, u16>`
abbrev pub LanguageCounts : Type 0
LanguageCounts = Language → Option ℕ

pub record DirectoryScan : Type 0 where
  pub manifest_files : List (FilePath ManifestFile)
  pub lockfiles : List (FilePath LockFile)
  pub task_files : List (FilePath TaskFile)
  pub cicd_files : List (FilePath CiCdFile)
  pub file_per_language : LanguageCounts
  pub container_files : List (FilePath ContainerFile)

unfoldable pub default_scan : DirectoryScan
default_scan = record {
  manifest_files = [];
  lockfiles = [];
  task_files = [];
  cicd_files = [];
  file_per_language = λ l. none;
  container_files = [];
}

-- The number of a language among the constructors.
unfoldable pub discriminant : Language → ℕ
discriminant Language.rust = 0
discriminant Language.java_script = 1
discriminant Language.python = 2
discriminant Language.go = 3
discriminant Language.java = 4
discriminant Language.c_sharp = 5
discriminant Language.ruby = 6
discriminant Language.php = 7
discriminant Language.c = 8
discriminant Language.bash = 9

-- `*entry(lang).or_insert(0) += n` on a `u16`
unfoldable pub bump : Language → ℕ → LanguageCounts → LanguageCounts
bump lang n counts = λ l.
    if discriminant l == discriminant lang
    then some ((Option.get_or (counts l) 0 + n) % 65536)
    else counts l

unfoldable pub add_type : FileType → DirectoryScan → DirectoryScan
add_type (manifest m) d = record d { manifest_files = d.manifest_files ++ (m ∷ []) }
add_type (lockfile l) d = record d { lockfiles = d.lockfiles ++ (l ∷ []) }
add_type (task_file p) d = record d { task_files = d.task_files ++ (p ∷ []) }
add_type (cicd_file p) d = record d { cicd_files = d.cicd_files ++ (p ∷ []) }
add_type (container_file p) d = record d { container_files = d.container_files ++ (p ∷ []) }
add_type (regular lang) d = record d { file_per_language = bump lang 1 d.file_per_language }
add_type unknown d = d

-- `AddAssign<PathBuf>`
unfoldable pub add_file : PathBuf → DirectoryScan → DirectoryScan
add_file path d = add_type (file_type path) d

-- Every count of one map is added to the other.
unfoldable pub merge_counts : LanguageCounts → LanguageCounts → LanguageCounts
merge_counts counts others = λ l. elim (others l) [
  | none ↦ counts l
  | some n ↦ some ((Option.get_or (counts l) 0 + n) % 65536)
]

-- `AddAssign<DirectoryScan>`
unfoldable pub merge_scan : DirectoryScan → DirectoryScan → DirectoryScan
merge_scan d other = record d {
  file_per_language = merge_counts d.file_per_language other.file_per_language;
}

unfoldable pub is_empty {ℓ} : {A : Type ℓ} → List A → Bool
is_empty [] = true
is_empty (x ∷ xs) = false

unfoldable pub has_interesting_files : DirectoryScan → Bool
has_interesting_files d =
    not (is_empty d.manifest_files)
    || not (is_empty d.lockfiles)
    || not (is_empty d.task_files)
    || not (is_empty d.cicd_files)
    || not (is_empty d.container_files)
