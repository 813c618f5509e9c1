-- ===== src/Worker/Examples.antt =====
-- Sample data of the worker, tests of its definitions, and its theorems at concrete inputs.
use procurator.Prelude.{
  String, ◌≡◌, refl, ◌⊎◌, none, some, List, [], ◌∷◌, map, arith, str_eq, if◌then◌else◌, ok, err,
  map_err,
}
use procurator.Prelude.HashMap.{get, insert}
use procurator.Worker.Dto.{VmError, hypervisor, not_found, VmSpec, running, CommandPayload, display}
use procurator.Worker.Vmm.{VmmBackend}
use procurator.Worker.Vmm.Mock.{
  mock_create, mock_boot, mock_prepare, mock_spawn, MockBackend, MockBackendConfig, default_config,
  new_tracker,
}
use procurator.Worker.Manager.{
  start, bring_up, or_drop, liveness, record_vm, VmManager, VmHandle, new, handle, run,
  handle_create, handle_delete,
}
use procurator.Worker.Manager.Fleet.{FleetStep, FleetRun, view, handle-FleetStep, run-new-FleetRun}
use procurator.Worker.Manager.Create.{Created, handle_create_atomic, handle_delete_lem}
use procurator.Worker.Manager.Calls.{IsBalanced, run-IsBalanced, create_failed-no_cleanup}
use procurator.Worker.Server.{up, CreateVmParams, create_vm}
use procurator.Worker.Server.Replies.{Reads, Unread, create_vm_lem}

abbrev spec : VmSpec
spec = record {
  toplevel = "/nix/store/abc-system";
  kernel_path = "/nix/store/abc-kernel";
  initrd_path = "/nix/store/abc-initrd";
  disk_image_path = "/nix/store/abc-disk";
  cmdline = "console=ttyS0";
  cpu = 2;
  memory_mb = 1024;
  network_allowed_domains = "example.org" ∷ [];
}

abbrev Mock : VmmBackend
Mock = MockBackend default_config

abbrev messages : List (String × CommandPayload)
messages =
    ("vm-1", CommandPayload.create spec)
    ∷ ("vm-2", CommandPayload.create spec)
    ∷ ("x", CommandPayload.delete "vm-1")
    ∷ ("x", CommandPayload.delete "vm-9")
    ∷ ("x", CommandPayload.list)
    ∷ ("x", CommandPayload.get_worker_status)
    ∷ []

abbrev fresh : VmManager Mock
fresh = record { vms = []; worker_id = "worker-local"; world = new_tracker }

-- One VM is running.
abbrev one_vm : VmManager Mock
one_vm = record {
  vms = ("vm-1", record { spec = spec; client = tt; process = tt; status = running }) ∷ [];
  worker_id = "worker-local";
  world = record new_tracker { prepares = 1; spawns = 1; creates = 1; boots = 1 };
}

handle-FleetStep_example :
    let r = handle Mock "vm-2" (CommandPayload.create spec) one_vm in
    FleetStep (view Mock one_vm) (CommandPayload.create spec) r.0 (view Mock r.1)
unfolding get
handle-FleetStep_example =
    handle-FleetStep Mock "vm-2" (CommandPayload.create spec) one_vm (refl, tt)

run-new-FleetRun_example :
    FleetRun
      (λ _. none)
      (map (λ (c : String × CommandPayload). c.1) messages)
      (view Mock (run Mock messages (new Mock "worker-local" new_tracker)))
run-new-FleetRun_example = run-new-FleetRun Mock "worker-local" new_tracker messages

handle_create_atomic_example :
    let r = handle_create Mock "vm-2" spec one_vm in
    ((e : VmError) × (r.0 ≡ err e) × (r.1.vms ≡ one_vm.vms))
    ⊎ ((r.0 ≡ ok "vm-2") × Created Mock "vm-2" spec one_vm r.1)
handle_create_atomic_example = handle_create_atomic Mock "vm-2" spec one_vm

handle_delete_example :
    let r = handle_delete Mock "vm-1" one_vm in
    ((get "vm-1" one_vm.vms ≡ none) × (r.0 ≡ err (not_found "vm-1")) × (r.1 ≡ one_vm))
    ⊎ ((h : VmHandle Mock) × (get "vm-1" one_vm.vms ≡ some h)
        × (r.0 ≡ ok tt)
        × ((j : String) → get j r.1.vms ≡ (if str_eq "vm-1" j then none else get j one_vm.vms))
        × (let shut = (Mock.shutdown h.client one_vm.world).1 in
            let deleted = (Mock.delete h.client shut).1 in
            let killed = (Mock.kill h.process deleted).1 in
            r.1.world ≡ Mock.drop_process h.process (Mock.cleanup h.process killed).1))
handle_delete_example = handle_delete_lem Mock "vm-1" one_vm

abbrev two_messages : List (String × CommandPayload)
two_messages = ("vm-2", CommandPayload.create spec) ∷ ("x", CommandPayload.delete "vm-1") ∷ []

one_vm-IsBalanced : IsBalanced default_config one_vm
unfolding get
one_vm-IsBalanced = ground arith

run-IsBalanced_example : IsBalanced default_config (run Mock two_messages one_vm)
unfolding get handle handle_create start bring_up or_drop liveness record_vm mock_create mock_boot
    mock_prepare mock_spawn insert
run-IsBalanced_example =
    run-IsBalanced default_config two_messages one_vm (refl, (refl, tt)) one_vm-IsBalanced

abbrev failing : MockBackendConfig
failing = record default_config { create_error = some "no memory" }

create_failed-no_cleanup_example :
    let r =
      handle_create (MockBackend failing) "vm-1" spec (new (MockBackend failing) "w" new_tracker) in
    (r.0 ≡ err (hypervisor "vm.create failed: mock error: no memory"))
    × (r.1.vms ≡ [])
    × (r.1.world ≡ record new_tracker { prepares = 1; spawns = 1; creates = 1 })
unfolding new
create_failed-no_cleanup_example =
    create_failed-no_cleanup failing "vm-1" spec (new (MockBackend failing) "w" new_tracker)
      "no memory" refl refl refl

abbrev params : CreateVmParams
params = record {
  domains = ok (ok "example.org" ∷ []);
  toplevel = ok "/nix/store/abc-system";
  kernel_path = ok "/nix/store/abc-kernel";
  initrd_path = ok "/nix/store/abc-initrd";
  disk_image_path = ok "/nix/store/abc-disk";
  cmdline = err "not UTF-8";
  cpu = 2;
  memory_mb = 1024;
}

create_vm_example :
    ((e : String) × Unread params e
      × (create_vm Mock "vm-2" params (up one_vm) ≡ (err e, up one_vm)))
    ⊎ ((s : VmSpec) × Reads params s
        × (create_vm Mock "vm-2" params (up one_vm) ≡ (
          map_err display (handle_create Mock "vm-2" s one_vm).0,
          up (handle_create Mock "vm-2" s one_vm).1,
        )))
create_vm_example = create_vm_lem Mock "vm-2" params one_vm
