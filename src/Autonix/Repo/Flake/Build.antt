-- ===== src/Autonix/Repo/Flake/Build.antt =====
-- flake.rs: `From<Analysis>` for the configuration.
use procurator.Prelude.{
  String, ◌<>◌, Bool, false, not, ◌||◌, List, [], ◌∷◌, ◌++◌, str_eq, ◌==◌, if◌then◌else◌, retain,
}
use procurator.Prelude.HashMap.{values}
use procurator.Prelude.Strings.{join_with}
use procurator.Autonix.Mapping.Languages.{Language, PackageManager, manager_name}
use procurator.Autonix.Repo.Scan.{is_empty, discriminant}
use procurator.Autonix.Repo.Analysis.{Package, RepoAnalysis}
use procurator.Autonix.Repo.Flake.{Texts, ProcuratorExtensions, Configuration}
use procurator.Autonix.Repo.Flake.Merge.{
  all_packages, collect_packages, merge_dev_shells, collect_checks, repo_services,
}

-- `HashSet` of languages and of package managers.
unfoldable pub has_language : Language → List Language → Bool
has_language l [] = false
has_language l (k ∷ ks) = (discriminant l == discriminant k) || has_language l ks

unfoldable pub has_manager : PackageManager → List PackageManager → Bool
has_manager l [] = false
has_manager l (k ∷ ks) = str_eq (manager_name l) (manager_name k) || has_manager l ks

unfoldable pub language_set : List Package → List Language → List Language
language_set [] set = set
language_set (p ∷ ps) set =
    language_set ps
      (if has_language p.toolchain.language set then set else set ++ (p.toolchain.language ∷ []))

unfoldable pub manager_set : List Package → List PackageManager → List PackageManager
manager_set [] set = set
manager_set (p ∷ ps) set = manager_set ps (
    if has_manager p.toolchain.package_manager set
    then set
    else set ++ (p.toolchain.package_manager ∷ []))

unfoldable pub project_name : List RepoAnalysis → String
project_name [] = "project"
project_name (r ∷ repos) = r.name

unfoldable pub repo_names : List RepoAnalysis → List String
repo_names [] = []
repo_names (r ∷ repos) = r.name ∷ repo_names repos

unfoldable pub description_of : List String → String
description_of [] = "Auto-generated flake"
description_of (name ∷ names) = "Auto-generated flake for " <> join_with ", " (name ∷ names)

-- The filter as written: a directory without checks passes.
unfoldable pub is_kept : RepoAnalysis → Bool
is_kept r = not (is_empty r.packages) || is_empty r.checks

module _ (T : Texts) where
  unfoldable pub extract_extensions : List RepoAnalysis → ProcuratorExtensions
  extract_extensions repos = record {
    services = values (repo_services T repos []);
    project = record {
      name = project_name repos;
      languages = language_set (all_packages repos) [];
      package_managers = manager_set (all_packages repos) [];
    };
  }

  unfoldable pub configuration_of_repos : List RepoAnalysis → Configuration
  configuration_of_repos repos = record {
    description = description_of (repo_names repos);
    inputs = record { nixpkgs = "github:NixOS/nixpkgs/nixos-unstable" };
    outputs = record {
      packages = collect_packages T repos;
      dev_shells = merge_dev_shells T repos;
      checks = collect_checks T repos;
      procurator = extract_extensions repos;
    };
  }

  unfoldable pub configuration_of : List RepoAnalysis → Configuration
  configuration_of repos = configuration_of_repos (retain is_kept repos)
