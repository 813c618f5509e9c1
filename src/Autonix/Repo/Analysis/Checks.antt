-- ===== src/Autonix/Repo/Analysis/Checks.antt =====
-- analysis.rs: the checks of a directory, from CI jobs, make targets and the scripts of manifests.
use procurator.Prelude.{
  String, ◌<>◌, Bool, true, false, ◌||◌, none, some, List, [], ◌∷◌, ◌++◌, if◌then◌else◌,
}
use procurator.Prelude.HashMap.{HashMap}
use procurator.Prelude.Strings.{one_of, contains, join_with, text_leb}
use procurator.Autonix.Mapping.Languages.{Language, PackageManager}
use procurator.Autonix.Mapping.Versions.{default_version}
use procurator.Autonix.Mapping.Manifests.{ParsedManifest}
use procurator.Autonix.Mapping.Tasks.{ParsedTaskFile}
use procurator.Autonix.Mapping.CiCd.{ParsedCiCdFile, CiJob, CiStep}
use procurator.Autonix.Repo.Analysis.{
  Toolchain, Check, ExtractionContext, manifest_toolchain, extract_dependencies, extract_services,
}

unfoldable pub first_toolchain : List ParsedManifest → Toolchain
first_toolchain [] = record {
  language = Language.bash;
  package_manager = PackageManager.pip;
  version = default_version;
}
first_toolchain (m ∷ ms) = manifest_toolchain m

unfoldable pub create_check : ExtractionContext → String → String → Check
create_check ctx name command = record {
  name = name;
  command = command;
  toolchain = first_toolchain ctx.manifests;
  dependencies = extract_dependencies ctx;
  services = extract_services ctx;
}

-- The four lists of commands of a job.
pub data Category : Type 0 where
  test : Category
  lint : Category
  build : Category
  other : Category

unfoldable pub category_of : String → Category
category_of lower =
    if contains lower "test" || contains lower "jest" || contains lower "pytest"
    then test
    else if contains lower "lint" || contains lower "eslint" || contains lower "clippy"
    then lint
    else if contains lower "build" || contains lower "compile"
    then build
    else other

unfoldable pub same_category : Category → Category → Bool
same_category test test = true
same_category lint lint = true
same_category build build = true
same_category other other = true
same_category _ _ = false

unfoldable pub is_script_check : String → Bool
is_script_check name = one_of name ("test" ∷ "lint" ∷ "format" ∷ "check" ∷ "typecheck" ∷ [])

unfoldable pub is_target_check : String → Bool
is_target_check name = one_of name ("test" ∷ "check" ∷ "lint" ∷ "format" ∷ "fmt" ∷ [])

unfoldable pub script_checks : HashMap String → List (String × String)
script_checks [] = []
script_checks ((name, command) ∷ m) =
    let rest = script_checks m in if is_script_check name then (name, command) ∷ rest else rest

-- `sort_by` the names
unfoldable pub sorted_insert : String × String → List (String × String) → List (String × String)
sorted_insert e [] = e ∷ []
sorted_insert e (f ∷ fs) =
    let rest = sorted_insert e fs in if text_leb e.0 f.0 then e ∷ f ∷ fs else f ∷ rest

unfoldable pub sort_by_name : List (String × String) → List (String × String)
sort_by_name [] = []
sort_by_name (e ∷ es) = sorted_insert e (sort_by_name es)

module _ (lowercase : String → String) (ctx : ExtractionContext) where
  unfoldable pub step_commands : Category → List CiStep → List String
  step_commands k [] = []
  step_commands k (s ∷ steps) =
      let rest = step_commands k steps in
      elim s.run [
        | none ↦ rest
        | some run_cmd ↦
            if same_category k (category_of (lowercase run_cmd)) then run_cmd ∷ rest else rest
      ]

  unfoldable pub commands_check : String → List String → List Check
  commands_check name [] = []
  commands_check name (c ∷ cs) = create_check ctx name (join_with " && " (c ∷ cs)) ∷ []

  unfoldable pub job_checks : CiJob → List Check
  job_checks job =
      commands_check (job.name <> "-test") (step_commands test job.steps)
      ++ (commands_check (job.name <> "-lint") (step_commands lint job.steps)
          ++ (commands_check (job.name <> "-build") (step_commands build job.steps)
              ++ commands_check job.name (step_commands other job.steps)))

  unfoldable pub jobs_checks : List CiJob → List Check
  jobs_checks [] = []
  jobs_checks (job ∷ jobs) = job_checks job ++ jobs_checks jobs

  unfoldable pub cicd_checks : List ParsedCiCdFile → List Check
  cicd_checks [] = []
  cicd_checks (f ∷ fs) = jobs_checks f.jobs ++ cicd_checks fs

  unfoldable pub target_checks : List String → List Check
  target_checks [] = []
  target_checks (t ∷ targets) =
      let rest = target_checks targets in
      if is_target_check t then create_check ctx t ("make " <> t) ∷ rest else rest

  unfoldable pub task_checks : List ParsedTaskFile → List Check
  task_checks [] = []
  task_checks (f ∷ fs) = target_checks f.targets ++ task_checks fs

  unfoldable pub checks_of_scripts : List (String × String) → List Check
  checks_of_scripts [] = []
  checks_of_scripts ((name, command) ∷ es) = create_check ctx name command ∷ checks_of_scripts es

  unfoldable pub manifest_checks : List ParsedManifest → List Check
  manifest_checks [] = []
  manifest_checks (m ∷ ms) =
      checks_of_scripts (sort_by_name (script_checks m.scripts)) ++ manifest_checks ms

  -- `From<&ExtractionContext>` for `Checks`
  unfoldable pub checks_of : List Check
  checks_of = cicd_checks ctx.cicd ++ (task_checks ctx.task_files ++ manifest_checks ctx.manifests)
