-- ===== src/Worker/Server.antt =====
-- worker/src/server.rs and the channel of dto.rs: the RPC adapter in front of the VM manager. The
-- Cap'n Proto readers and builders are not part of the repository: a request is given by what its
-- readers return, and a response by the values that are set on it. Requests reach the manager one
-- at a time.
pub mod Replies
use procurator.Prelude.{
  ℕ, zero, suc, ◌+◌, ◌-◌, ◌*◌, ◌/◌, ◌%◌, ◌^◌, ◌≤◌, ◌<◌, min, String, ◌<>◌, ◌≡◌, refl, sym, ap, ◌∙◌,
  ◌≢◌, ◌↔◌, ◌⊎◌, inl, inr, Bool, true, false, not, ◌&&◌, ◌||◌, Option, none, some, List, [], ◌∷◌,
  ◌++◌, map, arith, eq_iff, str_eq, ltb, leb, ◌==◌, if◌then◌else◌, Bool-cases, Option-cases, length,
  retain, count, All, take, Result, ok, err, map_err, map_ok, and_then, ok_or, Eff, pure, fail,
  gets, modify, resume, ◌>>=◌, ◌>>◌, map_error, best_effort,
}
use procurator.Worker.Dto.{
  VmError, manager_down, display, VmSpec, VmInfo, VmMetrics, WorkerInfo, CommandPayload,
  CommandResponse, as_str, is_drifted,
}
use procurator.Worker.Vmm.{VmmBackend}
use procurator.Worker.Manager.{VmManager, handle}

-- The manager's task: it owns the manager, or it has ended and closed its channel.
pub data Node (B : VmmBackend) : Type 0 where
  up : VmManager B → Node B
  down : Node B

-- `capnp::Error`, by its message.
abbrev pub CapnpError : Type 0
CapnpError = String

-- What the readers of a create's parameters return, in the order in which they are called.
pub record CreateVmParams : Type 0 where
  pub domains : Result (List (Result String CapnpError)) CapnpError
  pub toplevel : Result String CapnpError
  pub kernel_path : Result String CapnpError
  pub initrd_path : Result String CapnpError
  pub disk_image_path : Result String CapnpError
  pub cmdline : Result String CapnpError
  pub cpu : ℕ
  pub memory_mb : ℕ

-- One entry of the response to `listVms`.
pub record VmStatusWire : Type 0 where
  pub id : String
  pub worker_id : String
  pub desired_hash : String
  pub observed_hash : String
  pub status : String
  pub drifted : Bool
  pub metrics : VmMetrics

-- The loop over `network_allowed_domains`.
unfoldable pub read_domains : List (Result String CapnpError) → Result (List String) CapnpError
read_domains [] = ok []
read_domains (d ∷ ds) = let rest = read_domains ds in and_then d λ s. map_ok (λ ss. s ∷ ss) rest

unfoldable pub read_spec : CreateVmParams → Result VmSpec CapnpError
read_spec p = and_then (and_then p.domains read_domains) λ domains. and_then p.toplevel λ toplevel.
    and_then p.kernel_path λ kernel_path. and_then p.initrd_path λ initrd_path.
      and_then p.disk_image_path λ disk_image_path. and_then p.cmdline λ cmdline. ok (record {
        toplevel = toplevel;
        kernel_path = kernel_path;
        initrd_path = initrd_path;
        disk_image_path = disk_image_path;
        cmdline = cmdline;
        cpu = p.cpu;
        memory_mb = p.memory_mb;
        network_allowed_domains = domains;
      })

unfoldable pub wire : VmInfo → VmStatusWire
wire info = record {
  id = info.id;
  worker_id = info.worker_id;
  desired_hash = info.desired_hash;
  observed_hash = info.observed_hash;
  status = as_str info.status;
  drifted = is_drifted info.status info.desired_hash info.observed_hash;
  metrics = info.metrics;
}

-- The four matches on the manager's reply.
as_worker_info : CommandResponse → Result WorkerInfo CapnpError
as_worker_info (CommandResponse.worker_info info) = ok info
as_worker_info _ = err "unexpected response for GetWorkerStatus"

as_vm_list : CommandResponse → Result (List VmStatusWire) CapnpError
as_vm_list (CommandResponse.vm_list infos) = ok (map wire infos)
as_vm_list _ = err "unexpected response for List"

as_vm_id : CommandResponse → Result String CapnpError
as_vm_id (CommandResponse.vm_id id) = ok id
as_vm_id _ = err "unexpected response for Create"

as_unit : CommandResponse → Result (Unit {0}) CapnpError
as_unit CommandResponse.unit = ok tt
as_unit _ = err "unexpected response for Delete"

module _ (B : VmmBackend) where
  -- `CommandSender::request`: a closed channel, or a reply that is never sent, is `ManagerDown`.
  pub request : String → CommandPayload → Node B → Result CommandResponse VmError × Node B
  request vm_id payload (up m) = ((handle B vm_id payload m).0, up (handle B vm_id payload m).1)
  request vm_id payload down = (err manager_down, down)

  answer :
      {A : Type 0}
      → (CommandResponse → Result A CapnpError)
      → Result CommandResponse VmError × Node B
      → Result A CapnpError × Node B
  answer f r = (and_then (map_err display r.0) f, r.1)

  pub read : Node B → Result WorkerInfo CapnpError × Node B
  unfolding request answer as_worker_info
  read n = answer as_worker_info (request "" CommandPayload.get_worker_status n)

  pub list_vms : Node B → Result (List VmStatusWire) CapnpError × Node B
  unfolding request answer as_vm_list
  list_vms n = answer as_vm_list (request "" CommandPayload.list n)

  -- `vm_id` is the UUID that the manager draws.
  pub create_vm : String → CreateVmParams → Node B → Result String CapnpError × Node B
  unfolding request answer as_vm_id
  create_vm vm_id params n = elim (read_spec params) [
    | ok spec ↦ answer as_vm_id (request vm_id (CommandPayload.create spec) n)
    | err e ↦ (err e, n)
  ]

  pub delete_vm : Result String CapnpError → Node B → Result (Unit {0}) CapnpError × Node B
  unfolding request answer as_unit
  delete_vm (ok id) n = answer as_unit (request "" (CommandPayload.delete id) n)
  delete_vm (err e) n = (err e, n)
