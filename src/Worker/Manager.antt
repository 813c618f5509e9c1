-- ===== src/Worker/Manager.antt =====
-- worker/src/vm_manager.rs: the single owner of the VM table, over any backend. A fresh UUID is an
-- argument of a create. The proofs are in the modules below.
pub mod Create
pub mod Fleet
pub mod Calls
pub mod Keeps
use procurator.Prelude.{
  ℕ, zero, suc, ◌+◌, ◌-◌, ◌*◌, ◌/◌, ◌%◌, ◌^◌, ◌≤◌, ◌<◌, min, String, ◌<>◌, ◌≡◌, refl, sym, ap, ◌∙◌,
  ◌≢◌, ◌↔◌, ◌⊎◌, inl, inr, Bool, true, false, not, ◌&&◌, ◌||◌, Option, none, some, List, [], ◌∷◌,
  ◌++◌, map, arith, eq_iff, str_eq, ltb, leb, ◌==◌, if◌then◌else◌, Bool-cases, Option-cases, length,
  retain, count, All, take, Result, ok, err, map_err, map_ok, and_then, ok_or, Eff, pure, fail,
  gets, modify, resume, ◌>>=◌, ◌>>◌, map_error, best_effort,
}
use procurator.Prelude.HashMap.{HashMap, get, insert, remove}
use procurator.Worker.Dto.{
  VmError, not_found, hypervisor, process_failed, VmSpec, VmStatus, running, VmInfo,
  default_metrics, WorkerInfo, CommandPayload, CommandResponse,
}
use procurator.Worker.Vmm.{VmmBackend}

pub record VmHandle (B : VmmBackend) : Type 0 where
  pub spec : VmSpec
  pub client : B.Client
  pub process : B.Process
  pub status : VmStatus

-- The backend's state is part of its world.
pub record VmManager (B : VmmBackend) : Type 0 where
  pub vms : HashMap (VmHandle B)
  pub worker_id : String
  pub world : B.World

abbrev pub default_worker_id : String
default_worker_id = "worker-local"

module _ (B : VmmBackend) where
  open B use {World, Process}

  unfoldable pub new : String → World → VmManager B
  new worker_id world = record { vms = []; worker_id = worker_id; world = world }

  -- An early return drops the process handle.
  unfoldable pub or_drop : {A : Type 0} → Process → Eff World VmError A → Eff World VmError A
  or_drop process m w = elim (m w).0 [
    | ok a ↦ (ok a, (m w).1)
    | err e ↦ (err e, B.drop_process process (m w).1)
  ]

  -- The `match process.try_wait()` of step 7.
  unfoldable pub liveness :
      Process → Result (Option B.ExitStatus) VmError → Eff World VmError (Unit {0})
  liveness process (ok (some exit_status)) = do
    best_effort (B.cleanup process)
    fail (
        process_failed
          ("VMM process exited with " <> B.display_status exit_status <> " immediately after boot"))
  liveness process (ok none) = pure tt
  liveness process (err e) = pure tt

  -- Steps 3 to 7 of `handle_create`, from the spawned process on.
  unfoldable pub bring_up : String → VmSpec → B.Client → Process → Eff World VmError (VmHandle B)
  bring_up vm_id spec client process = do
    vmm_config ← gets (B.build_config vm_id spec)
    map_error (λ e. hypervisor ("vm.create failed: " <> B.display_error e))
        (B.create client vmm_config)
    map_error (λ e. hypervisor ("vm.boot failed: " <> B.display_error e)) (B.boot client)
    B.attach_network vm_id
    modify (B.sleep 500)
    (λ w. liveness process (B.try_wait process w).0 (B.try_wait process w).1)
    pure (record { spec = spec; client = client; process = process; status = running })

  -- Steps 1 to 7 of `handle_create`.
  unfoldable pub start : String → VmSpec → Eff World VmError (VmHandle B)
  start vm_id spec = do
    B.prepare vm_id spec
    spawned ← B.spawn vm_id
    or_drop spawned.1 (bring_up vm_id spec spawned.0 spawned.1)

  -- Step 8: only a VM that came up is entered in the table.
  unfoldable pub record_vm :
      String
      → VmManager B
      → Result (VmHandle B) VmError × World
      → Result String VmError × VmManager B
  record_vm vm_id m (ok handle, w) =
      (ok vm_id, record m { vms = insert vm_id handle m.vms; world = w })
  record_vm vm_id m (err e, w) = (err e, record m { world = w })

  unfoldable pub handle_create : String → VmSpec → VmManager B → Result String VmError × VmManager B
  handle_create vm_id spec m = record_vm vm_id m (start vm_id spec m.world)

  -- The four calls of `handle_delete`, whose errors are only logged.
  unfoldable pub tear_down : VmHandle B → World → World
  tear_down handle w =
      (B.cleanup handle.process
        (B.kill handle.process (B.delete handle.client (B.shutdown handle.client w).1).1).1).1

  unfoldable pub handle_delete : String → VmManager B → Result (Unit {0}) VmError × VmManager B
  handle_delete vm_id m = elim (get vm_id m.vms) [
    | none ↦ (err (not_found vm_id), m)
    | some handle ↦ (
      ok tt,
      record m {
        vms = remove vm_id m.vms;
        world = B.drop_process handle.process (tear_down handle m.world);
      },
    )
  ]

  -- The observed hash is the desired one: the source has not computed it yet.
  unfoldable pub build_vm_info : String → String → VmHandle B → VmInfo
  build_vm_info worker_id vm_id handle = record {
    id = vm_id;
    worker_id = worker_id;
    status = handle.status;
    desired_hash = handle.spec.toplevel;
    observed_hash = handle.spec.toplevel;
    metrics = default_metrics;
  }

  unfoldable pub handle_list : VmManager B → List VmInfo
  handle_list m = map (λ (e : String × VmHandle B). build_vm_info m.worker_id e.0 e.1) m.vms

  unfoldable pub is_running : String × VmHandle B → Bool
  is_running (vm_id, handle) = elim handle.status [ running ↦ true ]

  unfoldable pub handle_get_worker_status : VmManager B → WorkerInfo
  handle_get_worker_status m = record {
    id = m.worker_id;
    healthy = true;
    generation = 0;
    running_vms = length (retain is_running m.vms) % 2 ^ 32;
  }

  -- The dispatch of `handle`, and the reply that it sends. `vm_id` is the UUID of a create.
  unfoldable pub handle :
      String → CommandPayload → VmManager B → Result CommandResponse VmError × VmManager B
  handle vm_id (CommandPayload.create spec) m =
      (map_ok CommandResponse.vm_id (handle_create vm_id spec m).0, (handle_create vm_id spec m).1)
  handle vm_id (CommandPayload.delete id) m =
      (map_ok (λ _. CommandResponse.unit) (handle_delete id m).0, (handle_delete id m).1)
  handle vm_id CommandPayload.list m = (ok (CommandResponse.vm_list (handle_list m)), m)
  handle vm_id CommandPayload.get_worker_status m =
      (ok (CommandResponse.worker_info (handle_get_worker_status m)), m)

  -- The receive loop of `main`: each message with the UUID that a create of it would draw.
  unfoldable pub run : List (String × CommandPayload) → VmManager B → VmManager B
  run [] m = m
  run ((vm_id, payload) ∷ rest) m = run rest (handle vm_id payload m).1
