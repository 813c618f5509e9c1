-- ===== src/Worker/CloudHypervisor/Prepared.antt =====
-- cloud_hypervisor.rs: the map of prepared VMs over a worker's life.
use procurator.Prelude.{String, ◌<>◌, ◌≢◌, inl, inr, none, List, arith, eq_iff, Option-cases}
use procurator.Prelude.HashMap.{get, get-insert}
use procurator.Worker.Dto.{VmSpec, CommandPayload}
use procurator.Worker.Manager.{VmManager, run}
use procurator.Worker.Manager.Keeps.{Keeps, BackendKeeps, resume-Keeps, run-Keeps}
use procurator.Worker.CloudHypervisor.Config.{CloudHypervisorConfig, ◌</>◌}
use procurator.Worker.CloudHypervisor.Host.{Host}
use procurator.Worker.CloudHypervisor.Backend.{
  ChWorld, CloudHypervisorBackend, prepare, prepare_host, spawn, spawn_host, vm_dir_of,
  attach_network,
}

module _ (H : Host) (config : CloudHypervisorConfig) (id : String) where
  abbrev Remembered : ChWorld H → Type 0
  Remembered w = get id w.prepared ≢ none

  prepare-Keeps : (vm_id : String) (spec : VmSpec) → Keeps Remembered (prepare H config vm_id spec)
  unfolding prepare
  prepare-Keeps vm_id spec w h =
      resume-Keeps Remembered (prepare_host H config vm_id spec w.host).0 _ _ h
        λ p w' h'. ground (arith, get-insert vm_id id p w'.prepared, eq_iff vm_id id)

  spawn-Keeps : (vm_id : String) → Keeps Remembered (spawn H config vm_id)
  unfolding spawn
  spawn-Keeps vm_id w h =
      resume-Keeps Remembered
        (spawn_host H config (config.socket_dir </> (vm_id <> ".sock"))
          (vm_dir_of config vm_id w.prepared) w.host).0
        _ _ h λ child w' h'. h'

  attach_network-Keeps : (vm_id : String) → Keeps Remembered (attach_network H config vm_id)
  unfolding attach_network
  attach_network-Keeps vm_id w h = elim (Option-cases config.bridge_name) [
    | inl e ↦ rw (e, attach_network) h
    | inr (bridge, e) ↦ rw (e, attach_network) h
  ]

  backend-Keeps : BackendKeeps (CloudHypervisorBackend H config) Remembered
  backend-Keeps = record {
    create = λ c v w h. h;
    boot = λ c w h. h;
    shutdown = λ c w h. h;
    delete = λ c w h. h;
    kill = λ p w h. h;
    try_wait = λ p w h. h;
    cleanup = λ p w h. h;
    drop_process = λ p w h. h;
    prepare = prepare-Keeps;
    spawn = spawn-Keeps;
    attach_network = attach_network-Keeps;
    sleep = λ d w h. h;
  }

  -- A VM that was once prepared stays in the backend's map of prepared VMs, whatever messages the
  -- worker receives: neither the VM's delete nor a failed create takes it out.
  pub run-Remembered :
      (msgs : List (String × CommandPayload)) (m : VmManager (CloudHypervisorBackend H config))
      → get id m.world.prepared ≢ none
      → get id (run (CloudHypervisorBackend H config) msgs m).world.prepared ≢ none
  run-Remembered msgs m h =
      run-Keeps (CloudHypervisorBackend H config) Remembered backend-Keeps msgs m h
