-- ===== src/Autonix/Repo/Tree.antt =====
-- autonix/src/repo/scan.rs: the tree of the scanned directories and its iterator. A directory is the
-- entries that reading it gives, without those that fail; an unreadable one has none.
use procurator.Prelude.{
  ℕ, zero, suc, String, Bool, false, ◌||◌, Option, none, some, List, [], ◌∷◌, if◌then◌else◌,
}
use procurator.Autonix.Repo.Paths.{PathBuf}
use procurator.Autonix.Repo.Scan.{
  DirectoryScan, default_scan, should_ignore_dir, add_file, merge_scan, has_interesting_files,
}

mutual
  pub data DirEntry : Type 0 where
    file : Option String → DirEntry
    directory : Option String → DirEntries → DirEntry

  pub data DirEntries : Type 0 where
    no_entries : DirEntries
    entry : DirEntry → DirEntries → DirEntries

-- A directory with its subdirectories that are kept.
mutual
  pub data ScanNode : Type 0 where
    scan_node : PathBuf → DirectoryScan → ScanNodes → ScanNode

  pub data ScanNodes : Type 0 where
    no_nodes : ScanNodes
    nodes : ScanNode → ScanNodes → ScanNodes

unfoldable pub push_node : ScanNodes → ScanNode → ScanNodes
push_node no_nodes n = nodes n no_nodes
push_node (nodes m ms) n = nodes m (push_node ms n)

unfoldable mutual
  pub is_interesting : ScanNode → Bool
  is_interesting (scan_node path files children) =
      has_interesting_files files || has_interesting_children children

  pub has_interesting_children : ScanNodes → Bool
  has_interesting_children no_nodes = false
  has_interesting_children (nodes n ns) = is_interesting n || has_interesting_children ns

unfoldable pub node_files : ScanNode → DirectoryScan
node_files (scan_node path files children) = files

-- Keep the child, or merge its counts into the files of its parent.
unfoldable pub keep_or_merge : ScanNode → DirectoryScan × ScanNodes → DirectoryScan × ScanNodes
keep_or_merge child (files, children) =
    if is_interesting child
    then (files, push_node children child)
    else (merge_scan files (node_files child), children)

unfoldable pub node_of : PathBuf → DirectoryScan × ScanNodes → ScanNode
node_of path (files, children) = scan_node path files children

-- `From<PathBuf>`: the loop over the entries, with the files and the children so far.
unfoldable mutual
  pub scan_entry : PathBuf → DirEntry → DirectoryScan × ScanNodes → DirectoryScan × ScanNodes
  scan_entry path (file name) (files, children) = (add_file (name ∷ path) files, children)
  scan_entry path (directory name entries) (files, children) =
      let child = scan_entries (name ∷ path) entries (default_scan, no_nodes) in
      if should_ignore_dir (name ∷ path)
      then (files, children)
      else keep_or_merge (node_of (name ∷ path) child) (files, children)

  pub scan_entries : PathBuf → DirEntries → DirectoryScan × ScanNodes → DirectoryScan × ScanNodes
  scan_entries path no_entries state = state
  scan_entries path (entry e es) state = scan_entries path es (scan_entry path e state)

unfoldable pub scan_dir : PathBuf → DirEntries → ScanNode
scan_dir path entries = node_of path (scan_entries path entries (default_scan, no_nodes))

pub record Repo : Type 0 where
  pub path : PathBuf
  pub files : DirectoryScan

-- The stack of the iterator, its top first: the children come in order before what is below.
unfoldable pub onto : ScanNodes → List ScanNode → List ScanNode
onto no_nodes stack = stack
onto (nodes n ns) stack = n ∷ onto ns stack

abbrev pub Stack : Type 0
Stack = List ScanNode

-- `next`, the loop on fuel; the outer `none` is no fuel.
unfoldable pub next : ℕ → Stack → Option (Option (Repo × Stack))
next fuel [] = some none
next zero (node ∷ stack) = none
next (suc fuel) (scan_node path files children ∷ stack) =
    let rest = next fuel (onto children stack) in
    if has_interesting_files files
    then some (some (record { path = path; files = files }, onto children stack))
    else rest

-- All that the iterator gives, each call of `next` with the same fuel.
unfoldable pub collect : ℕ → ℕ → Stack → Option (List Repo)
collect zero fuel stack = none
collect (suc calls) fuel stack = elim (next fuel stack) [
  | none ↦ none
  | some none ↦ some []
  | some (some (repo, rest)) ↦ elim (collect calls fuel rest) [
    | none ↦ none
    | some repos ↦ some (repo ∷ repos)
  ]
]
