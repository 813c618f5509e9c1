-- ===== src/Autonix/Mapping/Formats.antt =====
-- What autonix takes from other crates: the deserialisers of TOML, JSON and YAML into the structures
-- of the mapping, the parser of Dockerfiles, and Unicode's lower case. Errors are their messages.
use procurator.Prelude.{String, Option, Result, List}
use procurator.Autonix.Mapping.Manifests.{CargoToml, PackageJson, PythonProject}
use procurator.Autonix.Mapping.CiCd.{GithubWorkflow}
use procurator.Autonix.Mapping.Containers.{DockerComposeFile, Instruction}

pub record Formats : Type 0 where
  pub cargo_toml : String → Result CargoToml String
  pub package_json : String → Result PackageJson String
  pub pyproject_toml : String → Result (Option PythonProject) String
  pub github_workflow : String → Result GithubWorkflow String
  pub docker_compose : String → Result DockerComposeFile String
  pub dockerfile : String → Result (List Instruction) String
  pub lowercase : String → String
