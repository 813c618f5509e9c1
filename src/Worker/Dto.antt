-- ===== src/Worker/Dto.antt =====
-- worker/src/dto.rs: the messages between the RPC server and the VM manager.
use procurator.Prelude.{ℕ, String, ◌<>◌, ◌≡◌, refl, Bool, not, List, str_eq}

pub data VmError : Type 0 where
  not_found : String → VmError
  hypervisor : String → VmError
  process_failed : String → VmError
  manager_down : VmError
  internal : String → VmError

-- `impl Display for VmError`
unfoldable pub display : VmError → String
display (not_found id) = "VM not found: " <> id
display (hypervisor msg) = "cloud-hypervisor error: " <> msg
display (process_failed msg) = "process error: " <> msg
display manager_down = "VM manager is down"
display (internal msg) = "internal error: " <> msg

-- `cpu` and `memory_mb` are `u32`.
pub record VmSpec : Type 0 where
  pub toplevel : String
  pub kernel_path : String
  pub initrd_path : String
  pub disk_image_path : String
  pub cmdline : String
  pub cpu : ℕ
  pub memory_mb : ℕ
  pub network_allowed_domains : List String

pub data VmStatus : Type 0 where
  running : VmStatus

unfoldable pub as_str : VmStatus → String
as_str running = "running"

pub as_str-eq-running : (s : VmStatus) → as_str s ≡ "running"
unfolding as_str
as_str-eq-running running = refl

unfoldable pub is_drifted : VmStatus → String → String → Bool
is_drifted status desired observed = not (str_eq desired observed)

-- `cpu_usage` is an `f32`, kept as its bit pattern: the only value made is the default, 0.0.
pub record VmMetrics : Type 0 where
  pub cpu_usage : ℕ
  pub memory_usage : ℕ
  pub network_rx_bytes : ℕ
  pub network_tx_bytes : ℕ

abbrev pub default_metrics : VmMetrics
default_metrics = record {
  cpu_usage = 0;
  memory_usage = 0;
  network_rx_bytes = 0;
  network_tx_bytes = 0;
}

pub record VmInfo : Type 0 where
  pub id : String
  pub worker_id : String
  pub status : VmStatus
  pub desired_hash : String
  pub observed_hash : String
  pub metrics : VmMetrics

pub record WorkerInfo : Type 0 where
  pub id : String
  pub healthy : Bool
  pub generation : ℕ
  pub running_vms : ℕ

pub data CommandPayload : Type 0 where
  create : VmSpec → CommandPayload
  delete : String → CommandPayload
  list : CommandPayload
  get_worker_status : CommandPayload

pub data CommandResponse : Type 0 where
  unit : CommandResponse
  vm_id : String → CommandResponse
  vm_list : List VmInfo → CommandResponse
  worker_info : WorkerInfo → CommandResponse
