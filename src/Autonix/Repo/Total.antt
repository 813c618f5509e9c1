-- ===== src/Autonix/Repo/Total.antt =====
-- parser.rs: a configuration is made for every repository whose directories have names.
use procurator.Prelude.{
  All-append, ℕ, String, ◌≡◌, ◌≤◌, ◌<◌, refl, true, Option, some, List, [], ◌∷◌, arith, All, Result,
  Option-cases, Bool-cases, inl, inr,
}
use procurator.Prelude.Strings.{is_some}
use procurator.Autonix.Mapping.Formats.{Formats}
use procurator.Autonix.Repo.Paths.{PathBuf, file_name}
use procurator.Autonix.Repo.Scan.{
  DirectoryScan, default_scan, should_ignore_dir, has_interesting_files,
}
use procurator.Autonix.Repo.Tree.{
  DirEntry, file, directory, DirEntries, no_entries, entry, ScanNode, scan_node, ScanNodes,
  no_nodes, nodes, push_node, is_interesting, keep_or_merge, node_of, scan_entry, scan_entries,
  scan_dir, Repo,
}
use procurator.Autonix.Repo.Iteration.{
  own_repo, tree_repos, forest_repos, stack_repos, stack_size, collect-stack_repos,
}
use procurator.Autonix.Repo.Missed.{WithoutContainers, tree_repos-WithoutContainers}
use procurator.Autonix.Repo.Analysis.{RepoAnalysis}
use procurator.Autonix.Repo.Analysis.Context.{analyse_repo, analyse, of_context}
use procurator.Autonix.Repo.Flake.{Texts, Configuration}
use procurator.Autonix.Repo.Flake.Build.{configuration_of}
use procurator.Autonix.Repo.Parser.{build_analysed, analyse_scanned, parse_repository}

abbrev pub Named : Option String → Type 0
Named name = is_some name ≡ true

-- Every directory below has a name that is a text.
abbrev mutual
  pub EntryNamed : DirEntry → Type 0
  EntryNamed (file name) = Unit
  EntryNamed (directory name entries) = Named name × EntriesNamed entries

  pub EntriesNamed : DirEntries → Type 0
  EntriesNamed no_entries = Unit
  EntriesNamed (entry e es) = EntryNamed e × EntriesNamed es

abbrev mutual
  TreeNamed : ScanNode → Type 0
  TreeNamed (scan_node path files children) = Named (file_name path) × ForestNamed children

  ForestNamed : ScanNodes → Type 0
  ForestNamed no_nodes = Unit
  ForestNamed (nodes n ns) = TreeNamed n × ForestNamed ns

ForestNamed-push_node :
    (ns : ScanNodes) (n : ScanNode) → ForestNamed ns → TreeNamed n → ForestNamed (push_node ns n)
unfolding push_node
ForestNamed-push_node no_nodes n h k = (k, tt)
ForestNamed-push_node (nodes m ms) n h k = (h.0, ForestNamed-push_node ms n h.1 k)

abbrev StateNamed : DirectoryScan × ScanNodes → Type 0
StateNamed state = ForestNamed state.1

StateNamed-keep_or_merge :
    (n : ScanNode) (state : DirectoryScan × ScanNodes)
    → TreeNamed n
    → StateNamed state
    → StateNamed (keep_or_merge n state)
unfolding keep_or_merge
StateNamed-keep_or_merge n (files, children) h k = elim (Bool-cases (is_interesting n)) [
  | inl e ↦ rw e (ForestNamed-push_node children n k h)
  | inr e ↦ rw e k
]

TreeNamed-node_of :
    (name : Option String) (path : PathBuf) (state : DirectoryScan × ScanNodes)
    → Named name
    → StateNamed state
    → TreeNamed (node_of (name ∷ path) state)
unfolding node_of file_name
TreeNamed-node_of name path (files, children) h k = (h, k)

mutual
  unfolding scan_entry scan_entries

  StateNamed-scan_entry :
      (path : PathBuf) (e : DirEntry) (state : DirectoryScan × ScanNodes)
      → EntryNamed e
      → StateNamed state
      → StateNamed (scan_entry path e state)
  StateNamed-scan_entry path (file name) (files, children) h k = k
  StateNamed-scan_entry path (directory name entries) (files, children) h k =
      let inner = scan_entries (name ∷ path) entries (default_scan, no_nodes) in
      let named =
        TreeNamed-node_of name path inner h.0
          (StateNamed-scan_entries (name ∷ path) entries (default_scan, no_nodes) h.1 tt) in
      elim (Bool-cases (should_ignore_dir (name ∷ path))) [
        | inl e ↦ rw e k
        | inr e ↦
            rw e (StateNamed-keep_or_merge (node_of (name ∷ path) inner) (files, children) named k)
      ]

  StateNamed-scan_entries :
      (path : PathBuf) (es : DirEntries) (state : DirectoryScan × ScanNodes)
      → EntriesNamed es
      → StateNamed state
      → StateNamed (scan_entries path es state)
  StateNamed-scan_entries path no_entries state h k = k
  StateNamed-scan_entries path (entry e es) state h k =
      StateNamed-scan_entries path es (scan_entry path e state) h.1
        (StateNamed-scan_entry path e state h.0 k)

abbrev RepoNamed : Repo → Type 0
RepoNamed r = Named (file_name r.path)

All-stack_repos {κ} :
    (P : Repo → Type κ) (n : ScanNode) → All P (tree_repos n) → All P (stack_repos (n ∷ []))
unfolding stack_repos
All-stack_repos P n h = All-append P (tree_repos n) [] h tt

own_repo-RepoNamed :
    (path : PathBuf) (files : DirectoryScan)
    → Named (file_name path)
    → All RepoNamed (own_repo path files)
unfolding own_repo
own_repo-RepoNamed path files h = elim (Bool-cases (has_interesting_files files)) [
  | inl e ↦ rw e (h, tt)
  | inr e ↦ rw e tt
]

mutual
  unfolding tree_repos forest_repos

  tree_repos-RepoNamed : (n : ScanNode) → TreeNamed n → All RepoNamed (tree_repos n)
  tree_repos-RepoNamed (scan_node path files children) h =
      All-append RepoNamed (own_repo path files) (forest_repos children)
        (own_repo-RepoNamed path files h.0) (forest_repos-RepoNamed children h.1)

  forest_repos-RepoNamed : (ns : ScanNodes) → ForestNamed ns → All RepoNamed (forest_repos ns)
  forest_repos-RepoNamed no_nodes h = tt
  forest_repos-RepoNamed (nodes n ns) h =
      All-append RepoNamed (tree_repos n) (forest_repos ns) (tree_repos-RepoNamed n h.0)
        (forest_repos-RepoNamed ns h.1)

scan_dir-TreeNamed :
    (name : Option String) (path : PathBuf) (es : DirEntries)
    → Named name
    → EntriesNamed es
    → TreeNamed (scan_dir (name ∷ path) es)
unfolding scan_dir
scan_dir-TreeNamed name path es h k =
    TreeNamed-node_of name path (scan_entries (name ∷ path) es (default_scan, no_nodes)) h
      (StateNamed-scan_entries (name ∷ path) es (default_scan, no_nodes) k tt)

module _ (F : Formats) (read : PathBuf → Result String String) where
  analyse_repo-some :
      (r : Repo)
      → RepoNamed r
      → WithoutContainers F read r
      → (a : RepoAnalysis) × (analyse_repo F read r ≡ some a)
  unfolding analyse_repo is_some
  analyse_repo-some r h k = elim (Option-cases (file_name r.path)) [
    | inl e ↦ absurd (ground arith)
    | inr (name, e) ↦ (of_context F.lowercase r.path name k.0, ground (arith, k.1))
  ]

  analyse-some :
      (repos : List Repo)
      → All RepoNamed repos
      → All (WithoutContainers F read) repos
      → (analysed : List RepoAnalysis) × (analyse F read repos ≡ some analysed)
  unfolding analyse
  analyse-some [] h k = ([], refl)
  analyse-some (r ∷ repos) h k =
      let first = analyse_repo-some r h.0 k.0 in
      let rest = analyse-some repos h.1 k.1 in (first.0 ∷ rest.0, ground (arith, first.1, rest.1))

  -- When the repository and all directories below have names that are texts, then whatever its files
  -- hold, a configuration is made, with enough calls and fuel of the iterator.
  pub parse_repository_total :
      (T : Texts) (name : Option String) (path : PathBuf) (es : DirEntries) (calls fuel : ℕ)
      → Named name
      → EntriesNamed es
      → stack_size (scan_dir (name ∷ path) es ∷ []) < calls
      → stack_size (scan_dir (name ∷ path) es ∷ []) ≤ fuel
      → (configuration : Configuration) × (parse_repository F read T calls fuel (name ∷ path) es
          ≡ some configuration)
  unfolding parse_repository analyse_scanned build_analysed
  parse_repository_total T name path es calls fuel h k enough fueled =
      let root = scan_dir (name ∷ path) es in
      let named = tree_repos-RepoNamed root (scan_dir-TreeNamed name path es h k) in
      let plain = tree_repos-WithoutContainers F read (name ∷ path) es in
      let collected = collect-stack_repos calls fuel (root ∷ []) enough fueled in
      let analysed =
        analyse-some (stack_repos (root ∷ [])) (All-stack_repos RepoNamed root named)
          (All-stack_repos (WithoutContainers F read) root plain) in
      (configuration_of T analysed.0, ground (arith, collected, analysed.1))
