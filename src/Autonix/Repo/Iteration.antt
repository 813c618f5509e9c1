-- ===== src/Autonix/Repo/Iteration.antt =====
-- scan.rs: the iterator over the tree, against the walk in preorder.
use procurator.Prelude.{
  append_assoc, ℕ, zero, suc, ◌+◌, ◌≤◌, ◌<◌, ◌≡◌, refl, Bool, true, false, none, some, List, [],
  ◌∷◌, ◌++◌, ◌∙◌, ◌⊎◌, inl, inr, arith, if◌then◌else◌, Bool-cases,
}
use procurator.Autonix.Repo.Paths.{PathBuf}
use procurator.Autonix.Repo.Scan.{DirectoryScan, FileType, has_interesting_files}
use procurator.Autonix.Repo.Tree.{
  DirEntries, ScanNode, scan_node, ScanNodes, no_nodes, nodes, Repo, Stack, onto, next, collect,
  scan_dir,
}
use procurator.Autonix.Repo.Found.{
  found, tree_found, forest_found, found_none, dir_found, tree_found-scan_dir,
}

-- The directories with files of known names, each before its subdirectories.
unfoldable pub own_repo : PathBuf → DirectoryScan → List Repo
own_repo path files =
    if has_interesting_files files then record { path = path; files = files } ∷ [] else []

unfoldable mutual
  pub tree_repos : ScanNode → List Repo
  tree_repos (scan_node path files children) = own_repo path files ++ forest_repos children

  pub forest_repos : ScanNodes → List Repo
  forest_repos no_nodes = []
  forest_repos (nodes n ns) = tree_repos n ++ forest_repos ns

unfoldable mutual
  pub tree_size : ScanNode → ℕ
  tree_size (scan_node path files children) = suc (forest_size children)

  pub forest_size : ScanNodes → ℕ
  forest_size no_nodes = 0
  forest_size (nodes n ns) = tree_size n + forest_size ns

unfoldable pub stack_repos : Stack → List Repo
stack_repos [] = []
stack_repos (n ∷ stack) = tree_repos n ++ stack_repos stack

unfoldable pub stack_size : Stack → ℕ
stack_size [] = 0
stack_size (n ∷ stack) = tree_size n + stack_size stack

stack_repos-onto :
    (ns : ScanNodes) (stack : Stack)
    → stack_repos (onto ns stack) ≡ forest_repos ns ++ stack_repos stack
unfolding stack_repos onto forest_repos
stack_repos-onto no_nodes stack = refl
stack_repos-onto (nodes n ns) stack =
    cc
      (stack_repos-onto ns stack, append_assoc (tree_repos n) (forest_repos ns) (stack_repos stack))

stack_size-onto :
    (ns : ScanNodes) (stack : Stack)
    → stack_size (onto ns stack) ≡ forest_size ns + stack_size stack
unfolding stack_size onto forest_size
stack_size-onto no_nodes stack = omega arith
stack_size-onto (nodes n ns) stack = omega (arith, stack_size-onto ns stack)

-- What one call does, when the fuel is at least the size of the stack.
abbrev Yields : ℕ → Stack → Type 0
Yields fuel stack =
    ((next fuel stack ≡ some none) × (stack_repos stack ≡ []))
    ⊎ ((r : Repo) × (rest : Stack) × (next fuel stack ≡ some (some (r, rest)))
        × (stack_repos stack ≡ r ∷ stack_repos rest)
        × (stack_size rest < stack_size stack))

stack_size-pop :
    (path : PathBuf) (files : DirectoryScan) (children : ScanNodes) (stack : Stack)
    → suc (stack_size (onto children stack)) ≡ stack_size (scan_node path files children ∷ stack)
unfolding stack_size tree_size
stack_size-pop path files children stack = omega (arith, stack_size-onto children stack)

stack_repos-pop :
    (path : PathBuf) (files : DirectoryScan) (children : ScanNodes) (stack : Stack)
    → stack_repos (scan_node path files children ∷ stack)
      ≡ own_repo path files ++ stack_repos (onto children stack)
unfolding stack_repos tree_repos
stack_repos-pop path files children stack = cc (
  stack_repos-onto children stack,
  append_assoc (own_repo path files) (forest_repos children) (stack_repos stack),
)

own_repo_interesting :
    (path : PathBuf) (files : DirectoryScan)
    → has_interesting_files files ≡ true
    → own_repo path files ≡ record { path = path; files = files } ∷ []
unfolding own_repo
own_repo_interesting path files e = ground arith

own_repo_other :
    (path : PathBuf) (files : DirectoryScan)
    → has_interesting_files files ≡ false
    → own_repo path files ≡ []
unfolding own_repo
own_repo_other path files e = ground arith

next_interesting :
    (fuel : ℕ) (path : PathBuf) (files : DirectoryScan) (children : ScanNodes) (stack : Stack)
    → has_interesting_files files ≡ true
    → next (suc fuel) (scan_node path files children ∷ stack)
      ≡ some (some (record { path = path; files = files }, onto children stack))
unfolding next
next_interesting fuel path files children stack e = ground arith

next_other :
    (fuel : ℕ) (path : PathBuf) (files : DirectoryScan) (children : ScanNodes) (stack : Stack)
    → has_interesting_files files ≡ false
    → next (suc fuel) (scan_node path files children ∷ stack) ≡ next fuel (onto children stack)
unfolding next
next_other fuel path files children stack e = ground arith

next_empty : (fuel : ℕ) → next fuel [] ≡ some none
unfolding next
next_empty fuel = refl

next-Yields : (fuel : ℕ) (stack : Stack) → stack_size stack ≤ fuel → Yields fuel stack
unfolding stack_repos stack_size tree_size
next-Yields fuel [] h = inl (next_empty fuel, refl)
next-Yields zero (scan_node path files children ∷ stack) h = absurd (omega arith)
next-Yields (suc fuel) (scan_node path files children ∷ stack) h =
    let size = stack_size-pop path files children stack in
    let repos = stack_repos-pop path files children stack in
    elim (Bool-cases (has_interesting_files files)) [
      | inl e ↦ inr (
        record { path = path; files = files },
        onto children stack,
        next_interesting fuel path files children stack e,
        cc (repos, own_repo_interesting path files e),
        omega (arith, size),
      )
      | inr e ↦ elim (next-Yields fuel (onto children stack) (omega (arith, size))) [
        | inl (stops, none_left) ↦ inl (
          next_other fuel path files children stack e ∙ stops,
          cc (repos, own_repo_other path files e, none_left),
        )
        | inr (r, rest, yields, left, smaller) ↦ inr (
          r,
          rest,
          next_other fuel path files children stack e ∙ yields,
          cc (repos, own_repo_other path files e, left),
          omega (arith, size, smaller),
        )
      ]
    ]

collect_step :
    (calls fuel : ℕ) (stack rest : Stack) (r : Repo) (repos : List Repo)
    → next fuel stack ≡ some (some (r, rest))
    → collect calls fuel rest ≡ some repos
    → collect (suc calls) fuel stack ≡ some (r ∷ repos)
unfolding collect
collect_step calls fuel stack rest r repos e f = ground arith

collect_end :
    (calls fuel : ℕ) (stack : Stack)
    → next fuel stack ≡ some none
    → collect (suc calls) fuel stack ≡ some []
unfolding collect
collect_end calls fuel stack e = ground arith

-- Enough calls with enough fuel give the directories with files of known names, in preorder.
pub collect-stack_repos :
    (calls fuel : ℕ) (stack : Stack)
    → stack_size stack < calls
    → stack_size stack ≤ fuel
    → collect calls fuel stack ≡ some (stack_repos stack)
collect-stack_repos zero fuel stack h k = absurd (omega arith)
collect-stack_repos (suc calls) fuel stack h k = elim (next-Yields fuel stack k) [
  | inl (stops, none_left) ↦ collect_end calls fuel stack stops ∙ cc (none_left)
  | inr (r, rest, yields, left, smaller) ↦
      collect_step calls fuel stack rest r (stack_repos rest) yields
        (collect-stack_repos calls fuel rest (omega (arith, smaller)) (omega (arith, smaller)))
      ∙ cc (left)
]

-- The directories that the iterator gives hold every file of a known name.
abbrev pub repos_found : (FileType → Bool) → List Repo → ℕ
repos_found p [] = 0
repos_found p (r ∷ rs) = found p r.files + repos_found p rs

repos_found-append :
    (p : FileType → Bool) (rs ss : List Repo)
    → repos_found p (rs ++ ss) ≡ repos_found p rs + repos_found p ss
repos_found-append p [] ss = omega arith
repos_found-append p (r ∷ rs) ss = omega (arith, repos_found-append p rs ss)

repos_found-own_repo :
    (p : FileType → Bool) (path : PathBuf) (files : DirectoryScan)
    → repos_found p (own_repo path files) ≡ found p files
unfolding own_repo
repos_found-own_repo p path files = ground (arith, found_none p files)

module _ (p : FileType → Bool) where
  mutual
    unfolding tree_repos forest_repos tree_found forest_found

    repos_found-tree_repos : (n : ScanNode) → repos_found p (tree_repos n) ≡ tree_found p n
    repos_found-tree_repos (scan_node path files children) = omega (
      arith,
      repos_found-append p (own_repo path files) (forest_repos children),
      repos_found-own_repo p path files,
      repos_found-forest_repos children,
    )

    repos_found-forest_repos :
        (ns : ScanNodes) → repos_found p (forest_repos ns) ≡ forest_found p ns
    repos_found-forest_repos no_nodes = refl
    repos_found-forest_repos (nodes n ns) = omega (
      arith,
      repos_found-append p (tree_repos n) (forest_repos ns),
      repos_found-tree_repos n,
      repos_found-forest_repos ns,
    )

pub repos_found-scan_dir :
    (p : FileType → Bool) (path : PathBuf) (es : DirEntries)
    → repos_found p (tree_repos (scan_dir path es)) ≡ dir_found p path es
repos_found-scan_dir p path es =
    repos_found-tree_repos p (scan_dir path es) ∙ tree_found-scan_dir p path es

-- With enough calls and fuel, the iterator over a scanned directory ends, and what it gives holds as
-- many files of known names that pass a test, whatever the test, as there are below the directory,
-- outside of ignored directories.
pub collect-scan_dir :
    (p : FileType → Bool) (path : PathBuf) (es : DirEntries) (calls fuel : ℕ)
    → stack_size (scan_dir path es ∷ []) < calls
    → stack_size (scan_dir path es ∷ []) ≤ fuel
    → (repos : List Repo) × (collect calls fuel (scan_dir path es ∷ []) ≡ some repos)
      × (repos_found p repos ≡ dir_found p path es)
collect-scan_dir p path es calls fuel h k = (
  stack_repos (scan_dir path es ∷ []),
  collect-stack_repos calls fuel (scan_dir path es ∷ []) h k,
  (unfold stack_repos in
      omega (
        arith,
        repos_found-append p (tree_repos (scan_dir path es)) [],
        repos_found-scan_dir p path es,
      )),
)
