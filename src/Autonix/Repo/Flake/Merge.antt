-- ===== src/Autonix/Repo/Flake/Merge.antt =====
-- flake.rs: packages, shells, checks and services of all directories put together.
use procurator.Prelude.{
  ℕ, suc, String, ◌<>◌, none, List, [], ◌∷◌, ◌++◌, map, str_eq, ltb, if◌then◌else◌,
}
use mathlib.Core.Option
use procurator.Prelude.HashMap.{HashMap, get, insert, or_insert, extend}
use procurator.Prelude.Strings.{one_of}
use procurator.Autonix.Mapping.Languages.{language_debug}
use procurator.Autonix.Mapping.Versions.{to_nix}
use procurator.Autonix.Repo.Analysis.{
  Package, Toolchain, Service, Check, RepoAnalysis, set_insert, set_extend,
}
use procurator.Autonix.Repo.Flake.{
  Texts, ToolchainConfig, ServiceConfig, PackageOutput, DevShellOutput, CheckOutput,
  ServiceDefinition, toolchain_config, extract_dep_names, infer_check_source, metadata_config,
  service_config, service_definition,
}

-- `HashSet::remove`
unfoldable pub set_remove : String → List String → List String
set_remove s [] = []
set_remove s (t ∷ set) = let rest = set_remove s set in if str_eq t s then rest else t ∷ rest

unfoldable pub all_packages : List RepoAnalysis → List Package
all_packages [] = []
all_packages (r ∷ repos) = r.packages ++ all_packages repos

unfoldable pub all_services : List RepoAnalysis → List Service
all_services [] = []
all_services (r ∷ repos) = r.dev_tools.services ++ all_services repos

unfoldable pub all_checks : List RepoAnalysis → List Check
all_checks [] = []
all_checks (r ∷ repos) = r.checks ++ all_checks repos

unfoldable pub all_env : List RepoAnalysis → HashMap String → HashMap String
all_env [] env = env
all_env (r ∷ repos) env = all_env repos (extend env r.dev_tools.env)

unfoldable pub all_dependencies : List RepoAnalysis → List String → List String
all_dependencies [] deps = deps
all_dependencies (r ∷ repos) deps =
    all_dependencies repos (set_extend (extract_dep_names r.dev_tools.dependencies) deps)

unfoldable pub service_names : List Service → List String → List String
service_names [] names = names
service_names (s ∷ services) names = service_names services (set_insert s.name names)

-- The count of a name with this check; the checks before it are in the map.
unfoldable pub counted : String → HashMap ℕ → ℕ
counted name counts = suc (Option.get_or (get name counts) 0)

unfoldable pub check_name : Check → ℕ → String
check_name check n =
    if ltb 1 n then check.name <> ("-" <> infer_check_source check.command) else check.name

module _ (T : Texts) where
  unfoldable pub package_output : Package → PackageOutput
  package_output pkg = record {
    name = pkg.name;
    toolchain = toolchain_config pkg.toolchain;
    dependencies = extract_dep_names pkg.dependencies;
    metadata = metadata_config T pkg.metadata;
  }

  unfoldable pub insert_packages : List Package → HashMap PackageOutput → HashMap PackageOutput
  insert_packages [] m = m
  insert_packages (p ∷ ps) m = insert_packages ps (insert p.name (package_output p) m)

  unfoldable pub collect_packages : List RepoAnalysis → HashMap PackageOutput
  collect_packages repos = insert_packages (all_packages repos) []

  unfoldable pub toolchain_key : Toolchain → String
  toolchain_key tc =
      language_debug tc.language <> ("-" <> T.debug_text (to_nix T.debug_version tc.version))

  unfoldable pub toolchain_keys : List Package → List String → List String
  toolchain_keys [] keys = keys
  toolchain_keys (p ∷ ps) keys = toolchain_keys ps (set_insert (toolchain_key p.toolchain) keys)

  -- The first package of every key that is still in the set.
  unfoldable pub pick_toolchains : List Package → List String → List ToolchainConfig
  pick_toolchains [] keys = []
  pick_toolchains (p ∷ ps) keys =
      let key = toolchain_key p.toolchain in
      let rest = pick_toolchains ps (set_remove key keys) in
      let skipped = pick_toolchains ps keys in
      if one_of key keys then toolchain_config p.toolchain ∷ rest else skipped

  unfoldable pub pick_services : List Service → List String → List ServiceConfig
  pick_services [] names = []
  pick_services (s ∷ services) names =
      let rest = pick_services services (set_remove s.name names) in
      let skipped = pick_services services names in
      if one_of s.name names then service_config T s ∷ rest else skipped

  -- The loop of the first part fills the sets, and those of the second empty them.
  unfoldable pub merge_dev_shells : List RepoAnalysis → DevShellOutput
  merge_dev_shells repos = record {
    toolchains = pick_toolchains (all_packages repos) (toolchain_keys (all_packages repos) []);
    dependencies = all_dependencies repos [];
    env = all_env repos [];
    shell_hook = none;
    services = pick_services (all_services repos) (service_names (all_services repos) []);
  }

  unfoldable pub check_output : Check → String → CheckOutput
  check_output check name = record {
    name = name;
    command = check.command;
    toolchain = toolchain_config check.toolchain;
    dependencies = extract_dep_names check.dependencies;
    services = map (service_config T) check.services;
  }

  unfoldable pub insert_checks : List Check → HashMap ℕ → HashMap CheckOutput → HashMap CheckOutput
  insert_checks [] counts m = m
  insert_checks (check ∷ checks) counts m =
      let n = counted check.name counts in
      let name = check_name check n in
      insert_checks checks (insert check.name n counts) (insert name (check_output check name) m)

  unfoldable pub collect_checks : List RepoAnalysis → HashMap CheckOutput
  collect_checks repos = insert_checks (all_checks repos) [] []

  -- A service of the tools replaces one of its name; one of a check does not.
  unfoldable pub tool_services :
      List Service → HashMap ServiceDefinition → HashMap ServiceDefinition
  tool_services [] m = m
  tool_services (s ∷ services) m = tool_services services (insert s.name (service_definition T s) m)

  unfoldable pub check_services :
      List Service → HashMap ServiceDefinition → HashMap ServiceDefinition
  check_services [] m = m
  check_services (s ∷ services) m =
      check_services services (or_insert s.name (service_definition T s) m)

  unfoldable pub checks_services :
      List Check → HashMap ServiceDefinition → HashMap ServiceDefinition
  checks_services [] m = m
  checks_services (check ∷ checks) m = checks_services checks (check_services check.services m)

  unfoldable pub repo_services :
      List RepoAnalysis → HashMap ServiceDefinition → HashMap ServiceDefinition
  repo_services [] m = m
  repo_services (r ∷ repos) m =
      repo_services repos (checks_services r.checks (tool_services r.dev_tools.services m))
