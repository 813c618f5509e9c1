-- ===== src/Autonix/Repo/Missed.antt =====
-- scan.rs: files that the classification by a file's name does not reach.
use procurator.Prelude.{
  ℕ, String, ◌≤◌, ◌<◌, ◌≡◌, ◌≢◌, refl, Bool, true, false, none, some, List, [], ◌∷◌, ◌∙◌, arith,
  count, All, Result,
}
use procurator.Prelude.Strings.{contains, has_prefix, strip_prefix, is_some, has_char}
use procurator.Autonix.Mapping.CiCd.{
  CiCdFile, github_actions, circle_ci, ci_cd_file_of, ci_by_name, ci_by_suffix,
}
use procurator.Autonix.Mapping.Formats.{Formats}
use procurator.Autonix.Repo.Paths.{PathBuf, file_name}
use procurator.Autonix.Repo.Scan.{
  FilePath, FileType, cicd_file, container_file, regular_type, named_type, file_type,
}
use procurator.Autonix.Repo.Tree.{
  DirEntry, file, directory, DirEntries, no_entries, entry, Repo, scan_dir, collect,
}
use procurator.Autonix.Repo.Found.{found, counts_as, entry_found, dir_found}
use procurator.Autonix.Repo.Iteration.{
  stack_size, tree_repos, repos_found, repos_found-scan_dir, collect-scan_dir,
}
use procurator.Autonix.Repo.Analysis.{ExtractionContext}
use procurator.Autonix.Repo.Analysis.Context.{
  parsed_manifests, parsed_tasks, parsed_cicd, parsed_containers, context_of,
}

abbrev pub is_container : FileType → Bool
is_container (container_file f) = true
is_container other = false

is_container-regular_type : (name : String) → counts_as is_container (regular_type name) ≡ 0
unfolding counts_as regular_type
is_container-regular_type name = ground arith

is_container-named_type :
    (name : String) (path : PathBuf) → counts_as is_container (named_type name path) ≡ 0
unfolding counts_as named_type
is_container-named_type name path = ground (arith, is_container-regular_type name)

is_container-file_type : (path : PathBuf) → counts_as is_container (file_type path) ≡ 0
unfolding file_type file_name counts_as
is_container-file_type [] = refl
is_container-file_type (none ∷ path) = refl
is_container-file_type (some name ∷ path) = is_container-named_type name (some name ∷ path)

mutual
  unfolding entry_found dir_found

  is_container-entry_found : (path : PathBuf) (e : DirEntry) → entry_found is_container path e ≡ 0
  is_container-entry_found path (file name) = is_container-file_type (name ∷ path)
  is_container-entry_found path (directory name entries) =
      ground (arith, is_container-dir_found (name ∷ path) entries)

  is_container-dir_found : (path : PathBuf) (es : DirEntries) → dir_found is_container path es ≡ 0
  is_container-dir_found path no_entries = refl
  is_container-dir_found path (entry e es) =
      omega (arith, is_container-entry_found path e, is_container-dir_found path es)

count_all {ℓ} : {A : Type ℓ} (xs : List A) → count (λ x. true) xs ≡ 0 → xs ≡ []
unfolding count
count_all [] h = refl
count_all (x ∷ xs) h = absurd (omega arith)

found_containers : (r : Repo) → found is_container r.files ≡ 0 → r.files.container_files ≡ []
unfolding found
found_containers r h = count_all r.files.container_files (omega arith)

module _ (F : Formats) (read : PathBuf → Result String String) where
  -- The files of a directory are parsed without a panic, and no container file is among them.
  abbrev pub WithoutContainers : Repo → Type 0
  WithoutContainers r =
      (ctx : ExtractionContext) × (context_of F read r ≡ some ctx) × (ctx.containers ≡ [])

  found-WithoutContainers : (r : Repo) → found is_container r.files ≡ 0 → WithoutContainers r
  found-WithoutContainers r h = (
    record {
      repo = r;
      manifests = parsed_manifests F read r.files.manifest_files;
      task_files = parsed_tasks F read r.files.task_files;
      cicd = parsed_cicd F read r.files.cicd_files;
      containers = [];
    },
    (unfold context_of parsed_containers in ground (arith, found_containers r h)),
    refl,
  )

  repos_found-WithoutContainers :
      (repos : List Repo) → repos_found is_container repos ≡ 0 → All WithoutContainers repos
  repos_found-WithoutContainers [] h = tt
  repos_found-WithoutContainers (r ∷ rs) h =
      (found-WithoutContainers r (omega arith), repos_found-WithoutContainers rs (omega arith))

  pub tree_repos-WithoutContainers :
      (path : PathBuf) (es : DirEntries) → All WithoutContainers (tree_repos (scan_dir path es))
  tree_repos-WithoutContainers path es =
      repos_found-WithoutContainers (tree_repos (scan_dir path es))
        (repos_found-scan_dir is_container path es ∙ is_container-dir_found path es)

  -- Whatever is below a directory: the iterator over its scan ends, with enough calls and fuel, and in
  -- every directory that it gives no container file is found, and none is among the parsed files.
  pub collect-WithoutContainers :
      (path : PathBuf) (es : DirEntries) (calls fuel : ℕ)
      → stack_size (scan_dir path es ∷ []) < calls
      → stack_size (scan_dir path es ∷ []) ≤ fuel
      → (repos : List Repo) × (collect calls fuel (scan_dir path es ∷ []) ≡ some repos)
        × All WithoutContainers repos
  collect-WithoutContainers path es calls fuel h k =
      let (repos, given, holds) = collect-scan_dir is_container path es calls fuel h k in
      (repos, given, repos_found-WithoutContainers repos (holds ∙ is_container-dir_found path es))

-- What a prefix, and so a part of a text, has among its characters, the text has.
strip_prefix-has_char :
    (x : ℕ) (s p : String) → has_prefix s p ≡ true → has_char x p ≡ true → has_char x s ≡ true
unfolding strip_prefix is_some has_char
strip_prefix-has_char x s String.[] h k = absurd (cc k)
strip_prefix-has_char x String.[] (String.◌∷◌ d p) h k = absurd (cc h)
strip_prefix-has_char x (String.◌∷◌ c s) (String.◌∷◌ d p) h k =
    ground (arith, strip_prefix-has_char x s p)

contains-has_char :
    (x : ℕ) (s p : String) → contains s p ≡ true → has_char x p ≡ true → has_char x s ≡ true
unfolding contains has_char
contains-has_char x String.[] p h k = strip_prefix-has_char x String.[] p h k
contains-has_char x (String.◌∷◌ c s) p h k =
    ground (arith, strip_prefix-has_char x (String.◌∷◌ c s) p, contains-has_char x s p)

ci_by_name_other :
    (name : String) → (ci_by_name name ≢ some github_actions) × (ci_by_name name ≢ some circle_ci)
unfolding ci_by_name
ci_by_name_other name = (λ h. ground arith, λ h. ground arith)

ci_by_suffix_other :
    (name : String)
    → (ci_by_suffix name ≢ some github_actions) × (ci_by_suffix name ≢ some circle_ci)
unfolding ci_by_suffix
ci_by_suffix_other name = (λ h. ground arith, λ h. ground arith)

ci_cd_file_of_other :
    (name : String)
    → has_char b'/' name ≡ false
    → (ci_cd_file_of name ≢ some github_actions) × (ci_cd_file_of name ≢ some circle_ci)
unfolding ci_cd_file_of has_char
ci_cd_file_of_other name h =
    let github = contains-has_char b'/' name ".github/workflows/" in
    let circle = contains-has_char b'/' name ".circleci/" in
    (
      λ e. ground (arith, github, circle, ci_by_name_other name, ci_by_suffix_other name),
      λ e. ground (arith, github, circle, ci_by_name_other name, ci_by_suffix_other name),
    )

regular_type_no_ci : (name : String) (f : FilePath CiCdFile) → regular_type name ≢ cicd_file f
unfolding regular_type
regular_type_no_ci name f h = ground arith

named_type_ci :
    (name : String) (path : PathBuf) (f : FilePath CiCdFile)
    → named_type name path ≡ cicd_file f
    → ci_cd_file_of name ≡ some f.kind
unfolding named_type
named_type_ci name path f h = ground (arith, regular_type_no_ci name f)

-- In no directory a file whose name has no slash is taken for a GitHub or CircleCI configuration.
file_type_other_ci :
    (name : String) (path : PathBuf) (f : FilePath CiCdFile)
    → has_char b'/' name ≡ false
    → file_type (some name ∷ path) ≡ cicd_file f
    → (f.kind ≢ github_actions) × (f.kind ≢ circle_ci)
file_type_other_ci name path f h e =
    let ci = named_type_ci name (some name ∷ path) f (unfold file_type file_name in e) in
    (
      λ k. ground (arith, ci, ci_cd_file_of_other name),
      λ k. ground (arith, ci, ci_cd_file_of_other name),
    )
