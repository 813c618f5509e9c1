-- ===== src/Autonix/Repo/Flake.antt =====
-- autonix/src/repo/flake.rs: the configuration of a flake from the analysed directories.
pub mod Merge
pub mod Build
pub mod Services
pub mod Names
pub mod Latest
use procurator.Prelude.{
  ℕ, String, Bool, Option, none, some, List, [], ◌∷◌, str_eq, ◌||◌, if◌then◌else◌,
}
use procurator.Prelude.HashMap.{HashMap}
use procurator.Prelude.Strings.{one_of, has_prefix, contains}
use procurator.Autonix.Version.{SemVerVersion}
use procurator.Autonix.Mapping.Languages.{Language, PackageManager}
use procurator.Autonix.Mapping.Versions.{Version, to_nix}
use procurator.Autonix.Repo.Analysis.{Toolchain, Dependency, Metadata, Service}

-- What the configuration takes from Rust's library: lower case, and the `Debug` of versions and
-- texts.
pub record Texts : Type 0 where
  pub lowercase : String → String
  pub debug_version : SemVerVersion → String
  pub debug_text : String → String

pub record ToolchainConfig : Type 0 where
  pub language : Language
  pub package_manager : PackageManager
  pub version : Version

-- Ports are `u16`.
pub record ServiceConfig : Type 0 where
  pub name : String
  pub version : Option String
  pub port : Option ℕ
  pub env : HashMap String

pub record MetadataConfig : Type 0 where
  pub version : String
  pub description : Option String
  pub authors : List String
  pub license : Option String

pub record PackageOutput : Type 0 where
  pub name : String
  pub toolchain : ToolchainConfig
  pub dependencies : List String
  pub metadata : MetadataConfig

pub record DevShellOutput : Type 0 where
  pub toolchains : List ToolchainConfig
  pub dependencies : List String
  pub env : HashMap String
  pub shell_hook : Option String
  pub services : List ServiceConfig

pub record CheckOutput : Type 0 where
  pub name : String
  pub command : String
  pub toolchain : ToolchainConfig
  pub dependencies : List String
  pub services : List ServiceConfig

pub record ServiceDefinition : Type 0 where
  pub name : String
  pub version : Option String
  pub port : Option ℕ
  pub health_check : Option String
  pub depends_on : List String
  pub env_vars : HashMap String

pub record ProjectMetadata : Type 0 where
  pub name : String
  pub languages : List Language
  pub package_managers : List PackageManager

pub record ProcuratorExtensions : Type 0 where
  pub services : List ServiceDefinition
  pub project : ProjectMetadata

pub record Outputs : Type 0 where
  pub packages : HashMap PackageOutput
  pub dev_shells : DevShellOutput
  pub checks : HashMap CheckOutput
  pub procurator : ProcuratorExtensions

pub record Inputs : Type 0 where
  pub nixpkgs : String

pub record Configuration : Type 0 where
  pub description : String
  pub inputs : Inputs
  pub outputs : Outputs

unfoldable pub toolchain_config : Toolchain → ToolchainConfig
toolchain_config tc = record {
  language = tc.language;
  package_manager = tc.package_manager;
  version = tc.version;
}

unfoldable pub extract_dep_names : List Dependency → List String
extract_dep_names [] = []
extract_dep_names (d ∷ ds) = d.name ∷ extract_dep_names ds

unfoldable pub infer_check_source : String → String
infer_check_source command =
    if has_prefix command "make "
    then "makefile"
    else if contains command "npm " || contains command "jest" || contains command "prettier"
    then "npm-script"
    else if contains command "cargo "
    then "cargo"
    else "script"

-- The port of a name in lower case.
unfoldable pub default_port : String → Option ℕ
default_port name =
    if one_of name ("postgres" ∷ "postgresql" ∷ [])
    then some 5432
    else if str_eq name "redis"
    then some 6379
    else if one_of name ("mysql" ∷ "mariadb" ∷ [])
    then some 3306
    else if one_of name ("mongodb" ∷ "mongo" ∷ [])
    then some 27017
    else if str_eq name "elasticsearch"
    then some 9200
    else if str_eq name "rabbitmq"
    then some 5672
    else if str_eq name "memcached"
    then some 11211
    else none

module _ (T : Texts) where
  unfoldable pub infer_default_port : String → Option ℕ
  infer_default_port service_name = default_port (T.lowercase service_name)

  unfoldable pub metadata_config : Metadata → MetadataConfig
  metadata_config meta = record {
    version = to_nix T.debug_version meta.version;
    description = meta.description;
    authors = meta.authors;
    license = meta.license;
  }

  unfoldable pub service_config : Service → ServiceConfig
  service_config service = record {
    name = service.name;
    version = some (to_nix T.debug_version service.version);
    port = infer_default_port service.name;
    env = [];
  }

  unfoldable pub service_definition : Service → ServiceDefinition
  service_definition service = record {
    name = service.name;
    version = some (to_nix T.debug_version service.version);
    port = infer_default_port service.name;
    health_check = none;
    depends_on = [];
    env_vars = [];
  }
