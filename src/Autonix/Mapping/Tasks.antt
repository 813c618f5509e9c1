-- ===== src/Autonix/Mapping/Tasks.antt =====
-- autonix/src/mapping/tasks.rs: the files of build systems, and what is read in a Makefile and in
-- CMakeLists.txt.
pub mod Listed
use procurator.Prelude.{
  ℕ, String, Bool, true, false, ◌||◌, Option, none, some, List, [], ◌∷◌, ◌++◌, str_eq,
  if◌then◌else◌, Result, ok, err, and_then, map_err,
}
use procurator.Prelude.Strings.{
  one_of, contains, before, trim, has_char, has_prefix, lines, after, split_once, split_whitespace,
}
use procurator.Autonix.Mapping.ParseErrors.{ParseError, io}

pub data TaskFile : Type 0 where
  makefile : TaskFile
  gnu_makefile : TaskFile
  cmake_lists : TaskFile
  meson_build : TaskFile
  bazel_build : TaskFile
  bazel_workspace : TaskFile
  rakefile : TaskFile
  ant_build_xml : TaskFile
  build_zig : TaskFile
  justfile : TaskFile
  taskfile : TaskFile

pub data BuildSystem : Type 0 where
  make : BuildSystem
  cmake : BuildSystem
  meson : BuildSystem
  bazel : BuildSystem
  just : BuildSystem
  zig : BuildSystem
  rake : BuildSystem
  ant : BuildSystem
  task : BuildSystem

-- `TryFrom<&str>`
unfoldable pub task_file_of : String → Option TaskFile
task_file_of filename =
    if one_of filename ("Makefile" ∷ "makefile" ∷ [])
    then some makefile
    else if str_eq filename "GNUmakefile"
    then some gnu_makefile
    else if str_eq filename "CMakeLists.txt"
    then some cmake_lists
    else if str_eq filename "meson.build"
    then some meson_build
    else if one_of filename ("BUILD" ∷ "BUILD.bazel" ∷ [])
    then some bazel_build
    else if str_eq filename "WORKSPACE"
    then some bazel_workspace
    else if str_eq filename "Rakefile"
    then some rakefile
    else if str_eq filename "build.xml"
    then some ant_build_xml
    else if str_eq filename "build.zig"
    then some build_zig
    else if str_eq filename "justfile"
    then some justfile
    else if one_of filename ("Taskfile.yml" ∷ "Taskfile.yaml" ∷ [])
    then some taskfile
    else none

pub record ParsedTaskFile : Type 0 where
  pub build_system : Option BuildSystem
  pub targets : List String
  pub system_deps : List String

unfoldable pub build_system_of : TaskFile → BuildSystem
build_system_of makefile = make
build_system_of gnu_makefile = make
build_system_of cmake_lists = cmake
build_system_of meson_build = meson
build_system_of bazel_build = bazel
build_system_of bazel_workspace = bazel
build_system_of justfile = just
build_system_of build_zig = zig
build_system_of rakefile = rake
build_system_of ant_build_xml = ant
build_system_of taskfile = task

unfoldable pub no_tasks : TaskFile → ParsedTaskFile
no_tasks file = record {
  build_system = some (build_system_of file);
  targets = [];
  system_deps = [];
}

-- A dependency is listed once.
unfoldable pub push_new : String → List String → List String
push_new dep deps = if one_of dep deps then deps else deps ++ (dep ∷ [])

-- What stands before the first `:` of a line is a target, if it is no assignment and no variable.
unfoldable pub line_target : String → List String
line_target trimmed =
    let target_part = before b':' trimmed in
    let target = trim target_part in
    if has_char b'=' target_part || has_char b'$' target_part
    then []
    else if str_eq target "" || has_prefix target "."
    then []
    else target ∷ []

unfoldable pub line_deps : List String → String → List String → List String
line_deps [] lower deps = deps
line_deps (dep ∷ names) lower deps =
    line_deps names lower (if contains lower dep then push_new dep deps else deps)

unfoldable pub known_deps : List String
known_deps = "pkg-config" ∷ "openssl" ∷ "curl" ∷ "postgresql" ∷ "sqlite" ∷ "zlib" ∷ []

-- The first word between `find_package(` and `)`.
unfoldable pub found_package : String → Option String
found_package trimmed = elim (after trimmed "find_package(") [
  | none ↦ none
  | some rest ↦ elim (split_once b')' rest) [
    | none ↦ none
    | some (pkg_content, _) ↦ elim (split_whitespace pkg_content) [
      | [] ↦ none
      | word ∷ _ ↦ some word
    ]
  ]
]

module _ (lowercase : String → String) where
  unfoldable pub makefile_line : String → ParsedTaskFile → ParsedTaskFile
  makefile_line line r =
      let trimmed = trim line in
      if str_eq trimmed "" || has_prefix trimmed "#" then r else record r {
        targets = r.targets ++ line_target trimmed;
        system_deps = line_deps known_deps (lowercase trimmed) r.system_deps;
      }

  unfoldable pub makefile_lines : List String → ParsedTaskFile → ParsedTaskFile
  makefile_lines [] r = r
  makefile_lines (line ∷ rest) r = makefile_lines rest (makefile_line line r)

  unfoldable pub parse_makefile : String → ParsedTaskFile → ParsedTaskFile
  parse_makefile content r = makefile_lines (lines content) r

  unfoldable pub add_package : Option String → ParsedTaskFile → ParsedTaskFile
  add_package none r = r
  add_package (some word) r = record r { system_deps = push_new (lowercase word) r.system_deps }

  unfoldable pub cmake_line : String → ParsedTaskFile → ParsedTaskFile
  cmake_line line r = add_package (found_package (trim line)) r

  unfoldable pub cmake_lines_of : List String → ParsedTaskFile → ParsedTaskFile
  cmake_lines_of [] r = r
  cmake_lines_of (line ∷ rest) r = cmake_lines_of rest (cmake_line line r)

  unfoldable pub parse_cmake : String → ParsedTaskFile → ParsedTaskFile
  parse_cmake content r = cmake_lines_of (lines content) r

  unfoldable pub extract_tasks : TaskFile → String → ParsedTaskFile → ParsedTaskFile
  extract_tasks makefile content r = parse_makefile content r
  extract_tasks gnu_makefile content r = parse_makefile content r
  extract_tasks cmake_lists content r = parse_cmake content r
  extract_tasks other content r = r

  -- `Parseable::parse`; a file is what reading it gives.
  unfoldable pub parse_task_file :
      TaskFile → Result String String → Result ParsedTaskFile ParseError
  parse_task_file file read =
      and_then (map_err io read) λ content. ok (extract_tasks file content (no_tasks file))
