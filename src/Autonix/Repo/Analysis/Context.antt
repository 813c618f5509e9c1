-- ===== src/Autonix/Repo/Analysis/Context.antt =====
-- analysis.rs: the files of a directory are parsed, and the directory is analysed. `read` is what
-- reading a file gives; `none` stands for a panic.
use procurator.Prelude.{String, Option, none, some, List, [], ◌∷◌, Result, ok, err}
use procurator.Autonix.Mapping.Formats.{Formats}
use procurator.Autonix.Mapping.Manifests.{ManifestFile, ParsedManifest}
use procurator.Autonix.Mapping.Manifests.Parse.{parse_manifest}
use procurator.Autonix.Mapping.Tasks.{TaskFile, ParsedTaskFile, parse_task_file}
use procurator.Autonix.Mapping.CiCd.{CiCdFile, ParsedCiCdFile, parse_ci_cd}
use procurator.Autonix.Mapping.Containers.{ContainerFile, ParsedContainerFile}
use procurator.Autonix.Mapping.Containers.Parse.{parse_container}
use procurator.Autonix.Repo.Paths.{PathBuf, file_name}
use procurator.Autonix.Repo.Scan.{FilePath}
use procurator.Autonix.Repo.Tree.{Repo}
use procurator.Autonix.Repo.Analysis.{ExtractionContext, RepoAnalysis, packages_of, dev_tools_of}
use procurator.Autonix.Repo.Analysis.Checks.{checks_of}

unfoldable pub of_context : (String → String) → PathBuf → String → ExtractionContext → RepoAnalysis
of_context lowercase path name ctx = record {
  name = name;
  path = path;
  packages = packages_of ctx;
  dev_tools = dev_tools_of ctx;
  checks = checks_of lowercase ctx;
}

module _ (F : Formats) (read : PathBuf → Result String String) where
  unfoldable pub parsed_manifests : List (FilePath ManifestFile) → List ParsedManifest
  parsed_manifests [] = []
  parsed_manifests (f ∷ fs) =
      let rest = parsed_manifests fs in
      elim (parse_manifest F f.kind (read f.path)) [ ok m ↦ m ∷ rest | err e ↦ rest ]

  unfoldable pub parsed_tasks : List (FilePath TaskFile) → List ParsedTaskFile
  parsed_tasks [] = []
  parsed_tasks (f ∷ fs) =
      let rest = parsed_tasks fs in
      elim (parse_task_file F.lowercase f.kind (read f.path)) [ ok t ↦ t ∷ rest | err e ↦ rest ]

  unfoldable pub parsed_cicd : List (FilePath CiCdFile) → List ParsedCiCdFile
  parsed_cicd [] = []
  parsed_cicd (f ∷ fs) =
      let rest = parsed_cicd fs in
      elim (parse_ci_cd F.github_workflow f.kind (read f.path)) [ ok c ↦ c ∷ rest | err e ↦ rest ]

  unfoldable pub parsed_containers :
      List (FilePath ContainerFile) → Option (List ParsedContainerFile)
  parsed_containers [] = some []
  parsed_containers (f ∷ fs) =
      let rest = parsed_containers fs in
      elim (parse_container F f.kind (read f.path)) [
        | none ↦ none
        | some (err e) ↦ rest
        | some (ok c) ↦ elim rest [ none ↦ none | some cs ↦ some (c ∷ cs) ]
      ]

  -- `From<&Repo>` for `ExtractionContext`
  unfoldable pub context_of : Repo → Option ExtractionContext
  context_of repo = elim (parsed_containers repo.files.container_files) [
    | none ↦ none
    | some containers ↦ some (record {
      repo = repo;
      manifests = parsed_manifests repo.files.manifest_files;
      task_files = parsed_tasks repo.files.task_files;
      cicd = parsed_cicd repo.files.cicd_files;
      containers = containers;
    })
  ]

  -- `From<Repo>`: the directory must have a name that is a text.
  unfoldable pub analyse_repo : Repo → Option RepoAnalysis
  analyse_repo repo = elim (file_name repo.path) [
    | none ↦ none
    | some name ↦ elim (context_of repo) [
      | none ↦ none
      | some ctx ↦ some (of_context F.lowercase repo.path name ctx)
    ]
  ]

  -- `From<ScanIter>`
  unfoldable pub analyse : List Repo → Option (List RepoAnalysis)
  analyse [] = some []
  analyse (repo ∷ repos) = elim (analyse_repo repo) [
    | none ↦ none
    | some a ↦ elim (analyse repos) [ none ↦ none | some rest ↦ some (a ∷ rest) ]
  ]
