-- ===== src/Autonix/Mapping/Tasks/Listed.antt =====
-- tasks.rs: the dependencies and the targets that are listed.
use procurator.Prelude.{
  All-append, ℕ, String, ◌+◌, ◌<◌, ◌≡◌, refl, Bool, true, false, ◌||◌, Option, none, some, List, [],
  ◌∷◌, ◌++◌, arith, eq_iff, str_eq, if◌then◌else◌, All, Result, ok, err, count,
}
use procurator.Prelude.Strings.{one_of, contains, trim, lines, has_prefix}
use procurator.Autonix.Mapping.Tasks.{
  TaskFile, makefile, ParsedTaskFile, push_new, line_deps, known_deps, makefile_line,
  makefile_lines, parse_makefile, gnu_makefile, cmake_lists, line_target, found_package, no_tasks,
  add_package, cmake_line, cmake_lines_of, parse_cmake, extract_tasks, parse_task_file,
}

-- How often a text stands in a list.
abbrev pub occurrences : String → List String → ℕ
occurrences s xs = count (λ x. str_eq x s) xs

abbrev pub Once : List String → Type 0
Once xs = (s : String) → occurrences s xs < 2

occurrences-append :
    (s : String) (xs : List String) (t : String)
    → occurrences s (xs ++ (t ∷ [])) ≡ occurrences s xs + (if str_eq t s then 1 else 0)
unfolding count
occurrences-append s [] t = ground arith
occurrences-append s (x ∷ xs) t = omega (arith, occurrences-append s xs t)

occurrences_none : (s : String) (xs : List String) → one_of s xs ≡ false → occurrences s xs ≡ 0
unfolding count one_of
occurrences_none s [] h = refl
occurrences_none s (x ∷ xs) h = ground (arith, eq_iff x s, eq_iff s x, occurrences_none s xs)

push_new-Once : (t : String) (xs : List String) → Once xs → Once (push_new t xs)
unfolding push_new
push_new-Once t xs h s =
    ground (arith, occurrences-append s xs t, occurrences_none t xs, eq_iff t s, h s)

if_Once : (b : Bool) (xs ys : List String) → Once xs → Once ys → Once (if b then xs else ys)
if_Once true xs ys h k = h
if_Once false xs ys h k = k

line_deps-Once :
    (names : List String) (lower : String) (deps : List String)
    → Once deps
    → Once (line_deps names lower deps)
unfolding line_deps
line_deps-Once [] lower deps h = h
line_deps-Once (n ∷ names) lower deps h =
    line_deps-Once names lower (if contains lower n then push_new n deps else deps)
      (if_Once (contains lower n) (push_new n deps) deps (push_new-Once n deps h) h)

-- A target has a name that starts with no dot.
abbrev pub IsTarget : String → Type 0
IsTarget t = (str_eq t "" ≡ false) × (has_prefix t "." ≡ false)

abbrev pub TasksRead : ParsedTaskFile → Type 0
TasksRead r = Once r.system_deps × All IsTarget r.targets

line_target-IsTarget : (line : String) → All IsTarget (line_target line)
unfolding line_target
line_target-IsTarget line = ground arith

if_TasksRead :
    (b : Bool) (r s : ParsedTaskFile) → TasksRead r → TasksRead s → TasksRead (if b then r else s)
if_TasksRead true r s h k = h
if_TasksRead false r s h k = k

no_tasks-TasksRead : (t : TaskFile) → TasksRead (no_tasks t)
unfolding no_tasks count
no_tasks-TasksRead t = (λ s. omega arith, tt)

module _ (lowercase : String → String) where
  makefile_line-TasksRead :
      (line : String) (r : ParsedTaskFile)
      → TasksRead r
      → TasksRead (makefile_line lowercase line r)
  unfolding makefile_line
  makefile_line-TasksRead line r h =
      if_TasksRead (str_eq (trim line) "" || has_prefix (trim line) "#") r _ h (
        line_deps-Once known_deps (lowercase (trim line)) r.system_deps h.0,
        All-append IsTarget r.targets (line_target (trim line)) h.1
            (line_target-IsTarget (trim line)),
      )

  makefile_lines-TasksRead :
      (ls : List String) (r : ParsedTaskFile)
      → TasksRead r
      → TasksRead (makefile_lines lowercase ls r)
  unfolding makefile_lines
  makefile_lines-TasksRead [] r h = h
  makefile_lines-TasksRead (l ∷ ls) r h =
      makefile_lines-TasksRead ls (makefile_line lowercase l r) (makefile_line-TasksRead l r h)

  add_package-TasksRead :
      (word : Option String) (r : ParsedTaskFile)
      → TasksRead r
      → TasksRead (add_package lowercase word r)
  unfolding add_package
  add_package-TasksRead none r h = h
  add_package-TasksRead (some word) r h = (push_new-Once (lowercase word) r.system_deps h.0, h.1)

  cmake_line-TasksRead :
      (line : String) (r : ParsedTaskFile) → TasksRead r → TasksRead (cmake_line lowercase line r)
  unfolding cmake_line
  cmake_line-TasksRead line r h = add_package-TasksRead (found_package (trim line)) r h

  cmake_lines_of-TasksRead :
      (ls : List String) (r : ParsedTaskFile)
      → TasksRead r
      → TasksRead (cmake_lines_of lowercase ls r)
  unfolding cmake_lines_of
  cmake_lines_of-TasksRead [] r h = h
  cmake_lines_of-TasksRead (l ∷ ls) r h =
      cmake_lines_of-TasksRead ls (cmake_line lowercase l r) (cmake_line-TasksRead l r h)

  extract_tasks-TasksRead :
      (t : TaskFile) (content : String) (r : ParsedTaskFile)
      → TasksRead r
      → TasksRead (extract_tasks lowercase t content r)
  unfolding extract_tasks parse_makefile parse_cmake
  extract_tasks-TasksRead makefile content r h = makefile_lines-TasksRead (lines content) r h
  extract_tasks-TasksRead gnu_makefile content r h = makefile_lines-TasksRead (lines content) r h
  extract_tasks-TasksRead cmake_lists content r h = cmake_lines_of-TasksRead (lines content) r h
  extract_tasks-TasksRead _ content r h = h

  -- Whatever build file is read: no dependency is listed twice, and every target has a name that
  -- starts with no dot.
  pub parse_task_file-TasksRead :
      (t : TaskFile) (read : Result String String) (r : ParsedTaskFile)
      → parse_task_file lowercase t read ≡ ok r
      → TasksRead r
  unfolding parse_task_file
  parse_task_file-TasksRead t (err e) r h = absurd (cc h)
  parse_task_file-TasksRead t (ok content) r h =
      let same : extract_tasks lowercase t content (no_tasks t) ≡ r = ground arith in
      rw (← same) (extract_tasks-TasksRead t content (no_tasks t) (no_tasks-TasksRead t))
