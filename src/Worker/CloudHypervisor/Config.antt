-- ===== src/Worker/CloudHypervisor/Config.antt =====
-- cloud_hypervisor.rs: the API data structures, the backend's configuration, and the error type.
use procurator.Prelude.{ℕ, String, ◌<>◌, Bool, Option, some, List}

-- `boot_vcpus` and `max_vcpus` are `u8`.
pub record ChCpusConfig : Type 0 where
  pub boot_vcpus : ℕ
  pub max_vcpus : ℕ

pub record ChPayloadConfig : Type 0 where
  pub kernel : String
  pub cmdline : Option String
  pub initramfs : Option String

pub record ChDiskConfig : Type 0 where
  pub path : String
  pub readonly : Option Bool
  pub direct : Option Bool

pub record ChNetConfig : Type 0 where
  pub tap : Option String
  pub ip : Option String
  pub mask : Option String
  pub mac : Option String

pub record ChSerialConfig : Type 0 where
  pub mode : String
  pub file : Option String

-- `memory` is the `u64` of `ChMemoryConfig`, `rng` the source of `ChRngConfig`, and `console` the
-- mode of `ChConsoleConfig`.
pub record ChVmConfig : Type 0 where
  pub cpus : ChCpusConfig
  pub memory : ℕ
  pub payload : Option ChPayloadConfig
  pub disks : List ChDiskConfig
  pub net : Option (List ChNetConfig)
  pub rng : Option String
  pub console : Option String
  pub serial : Option ChSerialConfig

-- `socket_timeout` is in milliseconds.
pub record CloudHypervisorConfig : Type 0 where
  pub socket_dir : String
  pub ch_binary : String
  pub socket_timeout : ℕ
  pub bridge_name : Option String

abbrev pub default_config : CloudHypervisorConfig
default_config = record {
  socket_dir = "/tmp/procurator/vms";
  ch_binary = "cloud-hypervisor";
  socket_timeout = 5000;
  bridge_name = some "chbr0";
}

pub record PreparedVm : Type 0 where
  pub writable_disk_path : String
  pub serial_log_path : String
  pub vm_dir : String
  pub tap_name : String
  pub network_available : Bool

-- The errors of the REST client; those of other crates are given by their messages.
pub data Error : Type 0 where
  communication : String → Error
  operation_failed : String → Error
  serialization : String → Error
  io : String → Error

unfoldable pub display_error : Error → String
display_error (communication msg) = "Communication error: " <> msg
display_error (operation_failed msg) = "Operation failed: " <> msg
display_error (serialization e) = "Serialization error: " <> e
display_error (io e) = "IO error: " <> e

-- `Path::join`, for a relative second part.
infixl 60 ◌</>◌
abbrev pub ◌</>◌ : String → String → String
dir </> name = dir <> ("/" <> name)
