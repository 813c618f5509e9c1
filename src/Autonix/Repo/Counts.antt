-- ===== src/Autonix/Repo/Counts.antt =====
-- scan.rs: the counts of files of a language, as `u16` numbers, over the tree and over the directories.
use procurator.Prelude.{ℕ, ◌+◌, ◌%◌, ◌≡◌, refl, true, false, ◌∷◌, arith, if◌then◌else◌, ◌==◌}
use mathlib.Core.Option
use procurator.Autonix.Mapping.Languages.{Language}
use procurator.Autonix.Repo.Paths.{PathBuf}
use procurator.Autonix.Repo.Scan.{
  DirectoryScan, default_scan, FileType, manifest, lockfile, task_file, cicd_file, container_file,
  regular, unknown, file_type, should_ignore_dir, discriminant, bump, merge_counts, add_type,
  add_file, merge_scan,
}
use procurator.Autonix.Repo.Tree.{
  DirEntry, file, directory, DirEntries, no_entries, entry, ScanNode, scan_node, ScanNodes,
  no_nodes, nodes, push_node, is_interesting, has_interesting_children, node_files, keep_or_merge,
  node_of, scan_entry, scan_entries, scan_dir,
}

-- All subdirectories of a directory that are kept are interesting.
abbrev AllInteresting : ScanNodes → Type 0
AllInteresting no_nodes = Unit
AllInteresting (nodes n ns) = (is_interesting n ≡ true) × AllInteresting ns

AllInteresting-push_node :
    (ns : ScanNodes) (n : ScanNode)
    → AllInteresting ns
    → is_interesting n ≡ true
    → AllInteresting (push_node ns n)
unfolding push_node
AllInteresting-push_node no_nodes n h e = (e, tt)
AllInteresting-push_node (nodes m ms) n h e = (h.0, AllInteresting-push_node ms n h.1 e)

abbrev StateInteresting : DirectoryScan × ScanNodes → Type 0
StateInteresting state = AllInteresting state.1

StateInteresting-keep_or_merge :
    (n : ScanNode) (state : DirectoryScan × ScanNodes)
    → StateInteresting state
    → StateInteresting (keep_or_merge n state)
unfolding keep_or_merge
StateInteresting-keep_or_merge n (files, children) h =
    ground (arith, AllInteresting-push_node children n)

mutual
  unfolding scan_entry scan_entries

  StateInteresting-scan_entry :
      (path : PathBuf) (e : DirEntry) (state : DirectoryScan × ScanNodes)
      → StateInteresting state
      → StateInteresting (scan_entry path e state)
  StateInteresting-scan_entry path (file name) (files, children) h = h
  StateInteresting-scan_entry path (directory name entries) (files, children) h =
      let child =
        node_of (name ∷ path) (scan_entries (name ∷ path) entries (default_scan, no_nodes)) in
      ground (arith, StateInteresting-keep_or_merge child (files, children))

  StateInteresting-scan_entries :
      (path : PathBuf) (es : DirEntries) (state : DirectoryScan × ScanNodes)
      → StateInteresting state
      → StateInteresting (scan_entries path es state)
  StateInteresting-scan_entries path no_entries state h = h
  StateInteresting-scan_entries path (entry e es) state h =
      StateInteresting-scan_entries path es (scan_entry path e state)
        (StateInteresting-scan_entry path e state h)

module _ (l : Language) where
  unfoldable pub lang_count : DirectoryScan → ℕ
  lang_count d = Option.get_or (d.file_per_language l) 0

  unfoldable mutual
    pub tree_count : ScanNode → ℕ
    tree_count (scan_node path files children) = lang_count files + forest_count children

    pub forest_count : ScanNodes → ℕ
    forest_count no_nodes = 0
    forest_count (nodes n ns) = tree_count n + forest_count ns

  unfoldable pub type_count : FileType → ℕ
  type_count (regular lang) = if discriminant l == discriminant lang then 1 else 0
  type_count other = 0

  unfoldable mutual
    pub entry_count : PathBuf → DirEntry → ℕ
    entry_count path (file name) = type_count (file_type (name ∷ path))
    entry_count path (directory name entries) =
        let inside = dir_count (name ∷ path) entries in
        if should_ignore_dir (name ∷ path) then 0 else inside

    pub dir_count : PathBuf → DirEntries → ℕ
    dir_count path no_entries = 0
    dir_count path (entry e es) = entry_count path e + dir_count path es

  abbrev state_count : DirectoryScan × ScanNodes → ℕ
  state_count state = lang_count state.0 + forest_count state.1

  lang_count-add_type :
      (t : FileType) (d : DirectoryScan)
      → lang_count (add_type t d) % 65536 ≡ (lang_count d + type_count t) % 65536
  unfolding lang_count add_type type_count bump
  lang_count-add_type (manifest m) d = omega arith
  lang_count-add_type (lockfile m) d = omega arith
  lang_count-add_type (task_file m) d = omega arith
  lang_count-add_type (cicd_file m) d = omega arith
  lang_count-add_type (container_file m) d = omega arith
  lang_count-add_type (regular lang) d = ground arith
  lang_count-add_type unknown d = omega arith

  lang_count-merge_scan :
      (d e : DirectoryScan)
      → lang_count (merge_scan d e) % 65536 ≡ (lang_count d + lang_count e) % 65536
  unfolding lang_count merge_scan merge_counts
  lang_count-merge_scan d e = ground arith

  forest_count-push_node :
      (ns : ScanNodes) (n : ScanNode)
      → forest_count (push_node ns n) ≡ forest_count ns + tree_count n
  unfolding forest_count push_node
  forest_count-push_node no_nodes n = omega arith
  forest_count-push_node (nodes m ms) n = omega (arith, forest_count-push_node ms n)

  -- What is merged has no subdirectories.
  tree_count_plain :
      (path : PathBuf) (state : DirectoryScan × ScanNodes)
      → StateInteresting state
      → is_interesting (node_of path state) ≡ false
      → tree_count (node_of path state) ≡ lang_count (node_files (node_of path state))
  unfolding node_of is_interesting has_interesting_children tree_count forest_count node_files
  tree_count_plain path (files, no_nodes) h e = omega arith
  tree_count_plain path (files, nodes n ns) h e = absurd (ground (arith, h.0))

  state_count-keep_or_merge :
      (path : PathBuf) (inner state : DirectoryScan × ScanNodes)
      → StateInteresting inner
      → state_count (keep_or_merge (node_of path inner) state) % 65536
        ≡ (state_count state + tree_count (node_of path inner)) % 65536
  unfolding keep_or_merge
  state_count-keep_or_merge path inner (files, children) h = ground (
    arith,
    tree_count_plain path inner h,
    forest_count-push_node children (node_of path inner),
    lang_count-merge_scan files (node_files (node_of path inner)),
  )

  tree_count-node_of :
      (path : PathBuf) (state : DirectoryScan × ScanNodes)
      → tree_count (node_of path state) ≡ state_count state
  unfolding node_of tree_count
  tree_count-node_of path (files, children) = refl

  state_count_default : state_count (default_scan, no_nodes) ≡ 0
  unfolding lang_count forest_count default_scan
  state_count_default = refl

  mutual
    unfolding scan_entry scan_entries entry_count dir_count add_file

    state_count-scan_entry :
        (path : PathBuf) (e : DirEntry) (state : DirectoryScan × ScanNodes)
        → state_count (scan_entry path e state) % 65536
          ≡ (state_count state + entry_count path e) % 65536
    state_count-scan_entry path (file name) (files, children) =
        omega (arith, lang_count-add_type (file_type (name ∷ path)) files)
    state_count-scan_entry path (directory name entries) (files, children) =
        let inner = scan_entries (name ∷ path) entries (default_scan, no_nodes) in
        ground (
          arith,
          state_count-keep_or_merge (name ∷ path) inner (files, children)
              (StateInteresting-scan_entries (name ∷ path) entries (default_scan, no_nodes) tt),
          tree_count-node_of (name ∷ path) inner,
          state_count_default,
          state_count-scan_entries (name ∷ path) entries (default_scan, no_nodes),
        )

    state_count-scan_entries :
        (path : PathBuf) (es : DirEntries) (state : DirectoryScan × ScanNodes)
        → state_count (scan_entries path es state) % 65536
          ≡ (state_count state + dir_count path es) % 65536
    state_count-scan_entries path no_entries state = omega arith
    state_count-scan_entries path (entry e es) state = omega (
      arith,
      state_count-scan_entry path e state,
      state_count-scan_entries path es (scan_entry path e state),
    )

  -- The counts of a language over all nodes of a scanned directory add up, modulo 2^16, to the files
  -- of that language below it, outside of ignored directories.
  pub tree_count-scan_dir :
      (path : PathBuf) (es : DirEntries)
      → tree_count (scan_dir path es) % 65536 ≡ dir_count path es % 65536
  unfolding scan_dir
  tree_count-scan_dir path es =
      let state = scan_entries path es (default_scan, no_nodes) in
      omega (
        arith,
        tree_count-node_of path state,
        state_count_default,
        state_count-scan_entries path es (default_scan, no_nodes),
      )
