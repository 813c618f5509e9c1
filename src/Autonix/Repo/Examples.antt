-- ===== src/Autonix/Repo/Examples.antt =====
-- The scan of a small repository, and flakes of small analyses.
use procurator.Prelude.{
  String, ◌≡◌, refl, ◌%◌, Bool, true, false, none, some, List, [], ◌∷◌, arith, All, Result, ok, err,
  if◌then◌else◌,
}
use procurator.Prelude.HashMap.{get, values}
use procurator.Prelude.Strings.{
  has_char, one_of, ends_with, contains, is_some, rsplit_once, strip_prefix,
}
use procurator.Autonix.Mapping.Languages.{Language, from_extension, PackageManager}
use procurator.Autonix.Mapping.Versions.{docker, default_version}
use procurator.Autonix.Mapping.Manifests.{CargoToml, manifest_of}
use procurator.Autonix.Mapping.CiCd.{CiCdFile, gitlab_ci, ci_by_name, ci_by_suffix, ci_cd_file_of}
use procurator.Autonix.Mapping.LockFiles.{lock_file_of}
use procurator.Autonix.Mapping.Tasks.{task_file_of}
use procurator.Autonix.Mapping.Formats.{Formats}
use procurator.Autonix.Repo.Paths.{PathBuf, file_name, extension}
use procurator.Autonix.Repo.Scan.{
  FilePath, FileType, cicd_file, file_type, default_scan, is_empty, should_ignore_dir,
  ignored_dir_basenames, has_interesting_files, add_file, add_type, named_type, bump, discriminant,
  merge_counts, merge_scan, regular_type,
}
use procurator.Autonix.Repo.Tree.{
  file, directory, DirEntries, no_entries, entry, Repo, Stack, collect, scan_dir, node_of,
  scan_entry, scan_entries, keep_or_merge, is_interesting, has_interesting_children, node_files,
  push_node,
}
use procurator.Autonix.Repo.Found.{dir_found}
use procurator.Autonix.Repo.Counts.{tree_count, dir_count, tree_count-scan_dir}
use procurator.Autonix.Repo.Iteration.{
  stack_size, tree_size, forest_size, stack_repos, repos_found, collect-stack_repos,
  collect-scan_dir,
}
use procurator.Autonix.Repo.Missed.{WithoutContainers, collect-WithoutContainers}
use procurator.Autonix.Repo.Analysis.{Service, Check, RepoAnalysis}
use procurator.Autonix.Repo.Flake.{Texts, Configuration}
use procurator.Autonix.Repo.Flake.Merge.{
  all_services, all_checks, merge_dev_shells, check_output, collect_checks,
}
use procurator.Autonix.Repo.Flake.Services.{
  has_service, configs_named, configs_named-merge_dev_shells,
}
use procurator.Autonix.Repo.Flake.Names.{NodupNames, collect_checks-All}
use procurator.Autonix.Repo.Flake.Latest.{IsLatest}
use procurator.Autonix.Repo.Parser.{parse_repository, parse_repository-IsLatest}
use procurator.Autonix.Repo.Total.{EntriesNamed, Named, parse_repository_total}

abbrev root : PathBuf
root = some "app" ∷ []

-- A crate with its sources and its build artifacts, and a directory with a Makefile.
abbrev tree : DirEntries
tree = entry (file (some "Cargo.toml")) (
    entry (directory (some "src") (entry (file (some "main.rs")) no_entries)) (
      entry (directory (some "target") (entry (file (some "main.rs")) no_entries))
        (entry (directory (some "docs") (entry (file (some "Makefile")) no_entries)) no_entries)))

abbrev stack : Stack
stack = scan_dir root tree ∷ []

stack_two : stack_size stack ≡ 2
unfolding stack_size scan_dir tree_size forest_size node_of scan_entry scan_entries
    should_ignore_dir file_name one_of ignored_dir_basenames keep_or_merge is_interesting
    has_interesting_children has_interesting_files is_empty add_file add_type file_type named_type
    manifest_of ends_with ci_by_name ci_by_suffix ci_cd_file_of from_extension lock_file_of
    task_file_of extension bump default_scan discriminant merge_counts merge_scan regular_type
    node_files push_node contains is_some rsplit_once strip_prefix
stack_two = refl

abbrev any : FileType → Bool
any t = true

collect-stack_repos_example : collect 3 2 stack ≡ some (stack_repos stack)
collect-stack_repos_example =
    collect-stack_repos 3 2 stack (omega (arith, stack_two)) (omega (arith, stack_two))

collect-scan_dir_example :
    (repos : List Repo) × (collect 3 2 stack ≡ some repos)
    × (repos_found any repos ≡ dir_found any root tree)
collect-scan_dir_example =
    collect-scan_dir any root tree 3 2 (omega (arith, stack_two)) (omega (arith, stack_two))

tree_count-scan_dir_example :
    tree_count Language.rust (scan_dir root tree) % 65536
    ≡ dir_count Language.rust root tree % 65536
tree_count-scan_dir_example = tree_count-scan_dir Language.rust root tree

abbrev no_formats : Formats
no_formats = record {
  cargo_toml = λ s. err "no table";
  package_json = λ s. err "no object";
  pyproject_toml = λ s. ok none;
  github_workflow = λ s. err "no mapping";
  docker_compose = λ s. err "no mapping";
  dockerfile = λ s. ok [];
  lowercase = λ s. s;
}

abbrev no_files : PathBuf → Result String String
no_files path = err "not found"

collect-WithoutContainers_example :
    (repos : List Repo) × (collect 3 2 stack ≡ some repos)
    × All (WithoutContainers no_formats no_files) repos
collect-WithoutContainers_example =
    collect-WithoutContainers no_formats no_files root tree 3 2 (omega (arith, stack_two))
      (omega (arith, stack_two))

abbrev gitlab : FilePath CiCdFile
gitlab = record { kind = gitlab_ci; path = some ".gitlab-ci.yml" ∷ root }

gitlab_found : file_type (some ".gitlab-ci.yml" ∷ root) ≡ cicd_file gitlab
unfolding file_type file_name named_type manifest_of one_of ends_with lock_file_of task_file_of
    ci_cd_file_of contains is_some strip_prefix ci_by_name
gitlab_found = refl

gitlab_plain : has_char b'/' ".gitlab-ci.yml" ≡ false
unfolding has_char
gitlab_plain = refl

abbrev texts : Texts
texts = record { lowercase = λ s. s; debug_version = λ v. "v"; debug_text = λ s. s }

abbrev postgres : Service
postgres = record { name = "postgres"; version = docker "15"; config = none }

abbrev check_named : String → String → Check
check_named name command = record {
  name = name;
  command = command;
  toolchain = record {
    language = Language.rust;
    package_manager = PackageManager.cargo;
    version = default_version;
  };
  dependencies = [];
  services = postgres ∷ [];
}

-- A directory with two checks and no packages.
abbrev api : RepoAnalysis
api = record {
  name = "api";
  path = root;
  packages = [];
  dev_tools = record {
    tools = [];
    env = [];
    shell_hook = none;
    dependencies = [];
    services = postgres ∷ [];
  };
  checks = check_named "test" "cargo test" ∷ check_named "lint" "cargo clippy" ∷ [];
}

configs_named-merge_dev_shells_example :
    configs_named "postgres" (merge_dev_shells texts (api ∷ api ∷ [])).services
    ≡ (if has_service "postgres" (all_services (api ∷ api ∷ [])) then 1 else 0)
configs_named-merge_dev_shells_example =
    configs_named-merge_dev_shells texts (api ∷ api ∷ []) "postgres"

api-NodupNames : NodupNames (all_checks (api ∷ []))
unfolding all_checks
api-NodupNames = (refl, (refl, tt))

collect_checks-All_example :
    All
      (λ c. get c.name (collect_checks texts (api ∷ [])) ≡ some (check_output texts c c.name))
      (all_checks (api ∷ []))
collect_checks-All_example = collect_checks-All texts (api ∷ []) api-NodupNames

abbrev crate : CargoToml
crate = record {
  cargo_package = some (record {
    name = "api";
    version = "1.2.0";
    edition = some "2024";
    description = none;
    authors = none;
    license = none;
  });
  workspace = none;
  bins = none;
}

abbrev formats : Formats
formats = record no_formats { cargo_toml = λ s. ok crate }

abbrev some_text : PathBuf → Result String String
some_text path = ok "[package]"

tree-EntriesNamed : EntriesNamed tree
unfolding is_some
tree-EntriesNamed = (tt, ((refl, (tt, tt)), ((refl, (tt, tt)), ((refl, (tt, tt)), tt))))

app-Named : Named (some "app")
unfolding is_some
app-Named = refl

parse_repository_total_example :
    (configuration : Configuration) × (parse_repository formats some_text texts 3 2 root tree
      ≡ some configuration)
parse_repository_total_example =
    parse_repository_total formats some_text texts (some "app") [] tree 3 2 app-Named
      tree-EntriesNamed (omega (arith, stack_two)) (omega (arith, stack_two))

built :
    (configuration : Configuration) × (parse_repository formats some_text texts 3 2 root tree
      ≡ some configuration)
built =
    parse_repository_total formats some_text texts (some "app") [] tree 3 2 app-Named
      tree-EntriesNamed (omega (arith, stack_two)) (omega (arith, stack_two))

parse_repository-IsLatest_example : All (IsLatest texts) (values built.0.outputs.packages)
parse_repository-IsLatest_example =
    parse_repository-IsLatest formats some_text texts 3 2 root tree built.0 built.1
