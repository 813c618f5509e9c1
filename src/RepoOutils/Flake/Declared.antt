-- ===== src/RepoOutils/Flake/Declared.antt =====
-- repo_outils/src/nix/flake.rs: the infrastructure that a flake declares, over a type for `f64`.
use procurator.Prelude.{ℕ, String, Bool, Option, List}
use procurator.Prelude.HashMap.{HashMap}

pub record MemorySpec (F64 : Type 0) : Type 0 where
  pub amount : F64
  pub unit : String

abbrev pub default_unit : String
default_unit = "GB"

pub record Machine (F64 : Type 0) : Type 0 where
  pub cpu : F64
  pub memory : MemorySpec F64
  pub roles : List String

-- `source_type` is "package", "flake" or "url".
pub record ServiceSourceInfo : Type 0 where
  pub source_type : String
  pub url : Option String
  pub rev : Option String
  pub output : String

-- `replicas` is an `i32`, kept as its bit pattern.
pub record Environment (F64 : Type 0) : Type 0 where
  pub cpu : F64
  pub memory : MemorySpec F64
  pub replicas : ℕ
  pub health_check : Option String

abbrev pub default_replicas : ℕ
default_replicas = 1

pub record Service (F64 : Type 0) : Type 0 where
  pub source_info : ServiceSourceInfo
  pub environments : HashMap (Environment F64)

pub record ContinuousDelivery : Type 0 where
  pub tests : Bool
  pub build : Bool
  pub dst : Bool
  pub staging : Bool

pub record LatencyThreshold : Type 0 where
  pub p99 : Option String
  pub p90 : Option String
  pub p50 : Option String

pub record RollbackThreshold (F64 : Type 0) : Type 0 where
  pub cpu : Option F64
  pub memory : Option (MemorySpec F64)
  pub latency : Option LatencyThreshold

pub record EmailConfig : Type 0 where
  pub subject : String
  pub body : String
  pub recipients : List String

pub record SlackConfig : Type 0 where
  pub channel : String
  pub message : String
  pub webhook_url : String

pub record NotificationConfig : Type 0 where
  pub enabled : Bool
  pub email : Option EmailConfig
  pub slack : Option SlackConfig

pub record RollbackConfig (F64 : Type 0) : Type 0 where
  pub enabled : Bool
  pub threshold : Option (RollbackThreshold F64)
  pub notification : Option NotificationConfig

pub record Infrastructure (F64 : Type 0) : Type 0 where
  pub machines : HashMap (Machine F64)
  pub services : HashMap (Service F64)
  pub cd : ContinuousDelivery
  pub rollback : RollbackConfig F64
