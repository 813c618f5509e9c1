-- ===== src/Autonix/Repo/Found.antt =====
-- scan.rs: what becomes of the files of a directory whose names one of the mappings knows.
use procurator.Prelude.{
  count-append, ℕ, ◌+◌, ◌≡◌, refl, Bool, true, false, List, [], ◌∷◌, arith, if◌then◌else◌, count,
}
use procurator.Autonix.Repo.Paths.{PathBuf}
use procurator.Autonix.Repo.Scan.{
  DirectoryScan, default_scan, FileType, manifest, lockfile, task_file, cicd_file, container_file,
  regular, unknown, file_type, should_ignore_dir, add_type, add_file, merge_scan, is_empty,
  has_interesting_files,
}
use procurator.Autonix.Repo.Tree.{
  DirEntry, file, directory, DirEntries, no_entries, entry, ScanNode, scan_node, ScanNodes,
  no_nodes, nodes, push_node, is_interesting, has_interesting_children, node_files, keep_or_merge,
  node_of, scan_entry, scan_entries, scan_dir,
}

module _ (p : FileType → Bool) where
  -- How many of the files found pass a test on what they are.
  unfoldable pub found : DirectoryScan → ℕ
  found d =
      count (λ m. p (manifest m)) d.manifest_files
      + count (λ m. p (lockfile m)) d.lockfiles
      + count (λ m. p (task_file m)) d.task_files
      + count (λ m. p (cicd_file m)) d.cicd_files
      + count (λ m. p (container_file m)) d.container_files

  unfoldable mutual
    pub tree_found : ScanNode → ℕ
    tree_found (scan_node path files children) = found files + forest_found children

    pub forest_found : ScanNodes → ℕ
    forest_found no_nodes = 0
    forest_found (nodes n ns) = tree_found n + forest_found ns

  -- A file of a known name counts; one of a language, or of none, does not.
  unfoldable pub counts_as : FileType → ℕ
  counts_as (regular lang) = 0
  counts_as unknown = 0
  counts_as other = if p other then 1 else 0

  -- The same count over the directories themselves, without those that are ignored.
  unfoldable mutual
    pub entry_found : PathBuf → DirEntry → ℕ
    entry_found path (file name) = counts_as (file_type (name ∷ path))
    entry_found path (directory name entries) =
        let inside = dir_found (name ∷ path) entries in
        if should_ignore_dir (name ∷ path) then 0 else inside

    pub dir_found : PathBuf → DirEntries → ℕ
    dir_found path no_entries = 0
    dir_found path (entry e es) = entry_found path e + dir_found path es

  abbrev state_found : DirectoryScan × ScanNodes → ℕ
  state_found state = found state.0 + forest_found state.1

  found-add_type : (t : FileType) (d : DirectoryScan) → found (add_type t d) ≡ found d + counts_as t
  unfolding found add_type counts_as count
  found-add_type (manifest m) d =
      omega (arith, count-append (λ m. p (manifest m)) d.manifest_files (m ∷ []))
  found-add_type (lockfile m) d =
      omega (arith, count-append (λ m. p (lockfile m)) d.lockfiles (m ∷ []))
  found-add_type (task_file m) d =
      omega (arith, count-append (λ m. p (task_file m)) d.task_files (m ∷ []))
  found-add_type (cicd_file m) d =
      omega (arith, count-append (λ m. p (cicd_file m)) d.cicd_files (m ∷ []))
  found-add_type (container_file m) d =
      omega (arith, count-append (λ m. p (container_file m)) d.container_files (m ∷ []))
  found-add_type (regular lang) d = omega arith
  found-add_type unknown d = omega arith

  found-merge_scan : (d e : DirectoryScan) → found (merge_scan d e) ≡ found d
  unfolding found merge_scan
  found-merge_scan d e = refl

  count_empty {ℓ} : {A : Type ℓ} (q : A → Bool) (xs : List A) → is_empty xs ≡ true → count q xs ≡ 0
  unfolding is_empty count
  count_empty q [] h = refl
  count_empty q (x ∷ xs) h = absurd (cc h)

  pub found_none : (d : DirectoryScan) → has_interesting_files d ≡ false → found d ≡ 0
  unfolding found has_interesting_files
  found_none d h = ground (
    arith,
    count_empty (λ m. p (manifest m)) d.manifest_files,
    count_empty (λ m. p (lockfile m)) d.lockfiles,
    count_empty (λ m. p (task_file m)) d.task_files,
    count_empty (λ m. p (cicd_file m)) d.cicd_files,
    count_empty (λ m. p (container_file m)) d.container_files,
  )

  mutual
    unfolding is_interesting has_interesting_children tree_found forest_found

    tree_found_none : (n : ScanNode) → is_interesting n ≡ false → tree_found n ≡ 0
    tree_found_none (scan_node path files children) h =
        ground (arith, found_none files, forest_found_none children)

    forest_found_none : (ns : ScanNodes) → has_interesting_children ns ≡ false → forest_found ns ≡ 0
    forest_found_none no_nodes h = refl
    forest_found_none (nodes n ns) h = ground (arith, tree_found_none n, forest_found_none ns)

  forest_found-push_node :
      (ns : ScanNodes) (n : ScanNode)
      → forest_found (push_node ns n) ≡ forest_found ns + tree_found n
  unfolding forest_found push_node
  forest_found-push_node no_nodes n = omega arith
  forest_found-push_node (nodes m ms) n = omega (arith, forest_found-push_node ms n)

  state_found-keep_or_merge :
      (n : ScanNode) (state : DirectoryScan × ScanNodes)
      → state_found (keep_or_merge n state) ≡ state_found state + tree_found n
  unfolding keep_or_merge
  state_found-keep_or_merge n (files, children) = ground (
    arith,
    tree_found_none n,
    forest_found-push_node children n,
    found-merge_scan files (node_files n),
  )

  tree_found-node_of :
      (path : PathBuf) (state : DirectoryScan × ScanNodes)
      → tree_found (node_of path state) ≡ state_found state
  unfolding node_of tree_found
  tree_found-node_of path (files, children) = refl

  state_found_default : state_found (default_scan, no_nodes) ≡ 0
  unfolding found forest_found count default_scan
  state_found_default = refl

  mutual
    unfolding scan_entry scan_entries entry_found dir_found node_of tree_found add_file

    state_found-scan_entry :
        (path : PathBuf) (e : DirEntry) (state : DirectoryScan × ScanNodes)
        → state_found (scan_entry path e state) ≡ state_found state + entry_found path e
    state_found-scan_entry path (file name) (files, children) =
        omega (arith, found-add_type (file_type (name ∷ path)) files)
    state_found-scan_entry path (directory name entries) (files, children) =
        let inner = scan_entries (name ∷ path) entries (default_scan, no_nodes) in
        ground (
          arith,
          state_found-keep_or_merge (node_of (name ∷ path) inner) (files, children),
          tree_found-node_of (name ∷ path) inner,
          state_found_default,
          state_found-scan_entries (name ∷ path) entries (default_scan, no_nodes),
        )

    state_found-scan_entries :
        (path : PathBuf) (es : DirEntries) (state : DirectoryScan × ScanNodes)
        → state_found (scan_entries path es state) ≡ state_found state + dir_found path es
    state_found-scan_entries path no_entries state = omega arith
    state_found-scan_entries path (entry e es) state = omega (
      arith,
      state_found-scan_entry path e state,
      state_found-scan_entries path es (scan_entry path e state),
    )

  pub tree_found-scan_dir :
      (path : PathBuf) (es : DirEntries) → tree_found (scan_dir path es) ≡ dir_found path es
  unfolding scan_dir
  tree_found-scan_dir path es =
      let state = scan_entries path es (default_scan, no_nodes) in
      omega (
        arith,
        tree_found-node_of path state,
        state_found_default,
        state_found-scan_entries path es (default_scan, no_nodes),
      )
