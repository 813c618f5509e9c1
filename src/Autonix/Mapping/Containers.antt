-- ===== src/Autonix/Mapping/Containers.antt =====
-- autonix/src/mapping/containers.rs: container files, what their formats hold, and what is taken from
-- them.
pub mod Dockerfiles
pub mod Compose
pub mod Parse
pub mod Stages
use procurator.Prelude.{ℕ, String, Bool, Option, none, some, List, [], ◌∷◌, str_eq, if◌then◌else◌}
use procurator.Prelude.HashMap.{HashMap}
use procurator.Prelude.Strings.{one_of}
use procurator.Autonix.Mapping.CiCd.{YamlValue}

pub data ContainerFile : Type 0 where
  docker_file : ContainerFile
  docker_compose : ContainerFile
  containerfile : ContainerFile
  skaffold : ContainerFile
  tiltfile : ContainerFile

-- `TryFrom<&str>`
unfoldable pub container_file_of : String → Option ContainerFile
container_file_of filename =
    if str_eq filename "Dockerfile"
    then some docker_file
    else if one_of filename
        ("docker-compose.yml" ∷ "docker-compose.yaml" ∷ "compose.yml" ∷ "compose.yaml" ∷ [])
    then some docker_compose
    else if str_eq filename "Containerfile"
    then some containerfile
    else if one_of filename ("skaffold.yaml" ∷ "skaffold.yml" ∷ [])
    then some skaffold
    else if str_eq filename "Tiltfile"
    then some tiltfile
    else none

pub record BaseImage : Type 0 where
  pub full : String
  pub name : String
  pub tag : Option String
  pub distribution : Option String
  pub stage_name : Option String

pub record BuildConfig : Type 0 where
  pub context : String
  pub dockerfile : Option String
  pub args : HashMap String
  pub target : Option String

-- Ports are `u16`.
pub record PortMapping : Type 0 where
  pub host : Option ℕ
  pub container : ℕ
  pub protocol : Option String

pub record VolumeMount : Type 0 where
  pub source : String
  pub target : String
  pub mount_type : Option String
  pub read_only : Bool

pub record HealthCheck : Type 0 where
  pub test : List String
  pub interval : Option String
  pub timeout : Option String
  pub retries : Option ℕ
  pub start_period : Option String

pub record ContainerService : Type 0 where
  pub name : String
  pub image : Option String
  pub build : Option BuildConfig
  pub ports : List PortMapping
  pub environment : HashMap String
  pub depends_on : List String
  pub volumes : List VolumeMount
  pub command : Option (List String)
  pub healthcheck : Option HealthCheck
  pub restart : Option String

pub record ParsedContainerFile : Type 0 where
  pub base_image : Option BaseImage
  pub build_stages : List BaseImage
  pub system_packages : List String
  pub ports : List ℕ
  pub environment : HashMap String
  pub services : List ContainerService
  pub command : Option (List String)
  pub working_dir : Option String
  pub build_args : HashMap (Option String)
  pub user : Option String
  pub healthcheck : Option HealthCheck
  pub labels : HashMap String

unfoldable pub default_container : ParsedContainerFile
default_container = record {
  base_image = none;
  build_stages = [];
  system_packages = [];
  ports = [];
  environment = [];
  services = [];
  command = none;
  working_dir = none;
  build_args = [];
  user = none;
  healthcheck = none;
  labels = [];
}

-- The structures of docker-compose files. Only what the code reads of a service is kept; the
-- values of a map of dependencies are not read.
pub data DockerComposeBuildArgs : Type 0 where
  map_args : HashMap String → DockerComposeBuildArgs
  list_args : List String → DockerComposeBuildArgs

pub data DockerComposeBuild : Type 0 where
  simple_build : String → DockerComposeBuild
  complex_build :
      String → Option String → DockerComposeBuildArgs → Option String → DockerComposeBuild

pub data DockerComposePort : Type 0 where
  short_port : String → DockerComposePort
  long_port : ℕ → Option ℕ → Option String → DockerComposePort

pub data DockerComposeEnvironment : Type 0 where
  map_env : HashMap String → DockerComposeEnvironment
  list_env : List String → DockerComposeEnvironment

pub data DockerComposeDependsOn : Type 0 where
  simple_depends : List String → DockerComposeDependsOn
  complex_depends : HashMap YamlValue → DockerComposeDependsOn

pub data DockerComposeVolume : Type 0 where
  short_volume : String → DockerComposeVolume
  long_volume : Option String → String → String → Option Bool → DockerComposeVolume

pub data DockerComposeCommand : Type 0 where
  string_command : String → DockerComposeCommand
  array_command : List String → DockerComposeCommand

pub record DockerComposeHealthCheck : Type 0 where
  pub test : DockerComposeCommand
  pub interval : Option String
  pub timeout : Option String
  pub retries : Option ℕ
  pub start_period : Option String

pub record DockerComposeService : Type 0 where
  pub image : Option String
  pub build : Option DockerComposeBuild
  pub ports : List DockerComposePort
  pub environment : DockerComposeEnvironment
  pub depends_on : DockerComposeDependsOn
  pub volumes : List DockerComposeVolume
  pub command : Option DockerComposeCommand
  pub healthcheck : Option DockerComposeHealthCheck
  pub restart : Option String

pub record DockerComposeFile : Type 0 where
  pub services : HashMap DockerComposeService

-- What the parser of Dockerfiles gives: its instructions in order.
pub data ShellOrExecExpr : Type 0 where
  shell : String → ShellOrExecExpr
  exec : List String → ShellOrExecExpr

pub data Instruction : Type 0 where
  from_image : String → Option String → Instruction
  run : ShellOrExecExpr → Instruction
  env : List (String × String) → Instruction
  cmd : ShellOrExecExpr → Instruction
  entrypoint : ShellOrExecExpr → Instruction
  arg : String → Option String → Instruction
  label : List (String × String) → Instruction
  misc : String → String → Instruction
  other : Instruction
