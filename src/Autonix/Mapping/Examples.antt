-- ===== src/Autonix/Mapping/Examples.antt =====
-- Small files of the mapping, read.
use procurator.Prelude.{String, ◌≡◌, refl, none, some, List, [], ◌∷◌, Result, ok, err}
use mathlib.Core.Option
use procurator.Autonix.Mapping.Formats.{Formats}
use procurator.Autonix.Mapping.Tasks.{makefile, ParsedTaskFile, parse_task_file, no_tasks}
use procurator.Autonix.Mapping.Tasks.Listed.{TasksRead, parse_task_file-TasksRead}
use procurator.Autonix.Mapping.Containers.{
  ParsedContainerFile, default_container, Instruction, from_image, cmd, shell,
}
use procurator.Autonix.Mapping.Containers.Dockerfiles.{instruction, instructions}
use procurator.Autonix.Mapping.Containers.Stages.{stages, first, instructions-stages}

abbrev formats : Formats
formats = record {
  cargo_toml = λ s. err "no table";
  package_json = λ s. err "no object";
  pyproject_toml = λ s. ok none;
  github_workflow = λ s. err "no mapping";
  docker_compose = λ s. err "no mapping";
  dockerfile = λ s. ok [];
  lowercase = λ s. s;
}

abbrev of_result {ℓ} : {A E : Type ℓ} → A → Result A E → A
of_result a (ok b) = b
of_result a (err e) = a

abbrev lower : String → String
lower s = s

abbrev makefile_read : ParsedTaskFile
makefile_read = of_result (no_tasks makefile) (parse_task_file lower makefile (ok "test: build"))

makefile_parsed : parse_task_file lower makefile (ok "test: build") ≡ ok makefile_read
unfolding parse_task_file
makefile_parsed = refl

parse_task_file-TasksRead_example : TasksRead makefile_read
parse_task_file-TasksRead_example =
    parse_task_file-TasksRead lower makefile (ok "test: build") makefile_read makefile_parsed

abbrev two_stages : List Instruction
two_stages =
    from_image "rust:1.75" (some "builder") ∷ from_image "alpine" none ∷ cmd (shell "api") ∷ []

abbrev image_read : ParsedContainerFile
image_read = Option.get_or (instructions lower two_stages default_container) default_container

two_stages_read : instructions lower two_stages default_container ≡ some image_read
unfolding instructions instruction
two_stages_read = refl

instructions-stages_example :
    (image_read.build_stages ≡ stages two_stages)
    × (image_read.base_image ≡ first (stages two_stages))
instructions-stages_example = instructions-stages lower two_stages image_read two_stages_read
