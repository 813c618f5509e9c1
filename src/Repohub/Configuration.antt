-- ===== src/Repohub/Configuration.antt =====
-- repohub/src/models/configuration.rs: the configuration of a project, over a type for `f64`.
use procurator.Prelude.{ℕ, String, Bool, Option, List}
use procurator.Prelude.HashMap.{HashMap}

pub data ConnectionType : Type 0 where
  http : ConnectionType
  database : ConnectionType
  cache : ConnectionType
  queue : ConnectionType
  grpc : ConnectionType
  custom : ConnectionType

pub record ConnectionConfig : Type 0 where
  pub port : Option ℕ
  pub protocol : Option String
  pub endpoint : Option String
  pub env_var_name : Option String

pub record DependencyEdge : Type 0 where
  pub from : String
  pub to : String
  pub connection_type : ConnectionType
  pub config : ConnectionConfig

pub record MemorySpec (F64 : Type 0) : Type 0 where
  pub amount : F64
  pub unit : String

pub data ServiceType : Type 0 where
  application : ServiceType
  database : ServiceType
  cache : ServiceType
  proxy : ServiceType
  queue : ServiceType
  storage : ServiceType
  other : ServiceType

pub record ResourceRequirements (F64 : Type 0) : Type 0 where
  pub cpu : F64
  pub memory : MemorySpec F64
  pub storage : Option (MemorySpec F64)

pub record EnvironmentConfig (F64 : Type 0) : Type 0 where
  pub enabled : Bool
  pub resources : ResourceRequirements F64
  pub replicas : ℕ
  pub env_vars : HashMap String

-- A repository and its output, a package, or a flake's URL and output.
pub data ServiceSource : Type 0 where
  project_repo : String → Option String → ServiceSource
  nix_package : String → ServiceSource
  flake : String → String → ServiceSource

pub record PortMapping : Type 0 where
  pub internal : ℕ
  pub external : Option ℕ
  pub protocol : String

pub record ServiceConfig (F64 : Type 0) : Type 0 where
  pub name : String
  pub source : ServiceSource
  pub service_type : ServiceType
  pub environments : HashMap (EnvironmentConfig F64)
  pub ports : List PortMapping
  pub env_vars : HashMap String
  pub health_check : Option String

pub record ProjectConfiguration (F64 : Type 0) : Type 0 where
  pub services : HashMap (ServiceConfig F64)
  pub dependencies : List DependencyEdge

pub record SaveConfigurationRequest (F64 : Type 0) : Type 0 where
  pub configuration : ProjectConfiguration F64
