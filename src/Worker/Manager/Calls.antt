-- ===== src/Worker/Manager/Calls.antt =====
-- The calls that the VM manager makes, counted by the mock backend of the worker's tests.
use procurator.Prelude.{
  ℕ, ◌+◌, ◌≤◌, String, ◌<>◌, ◌≡◌, inl, inr, Option, none, some, List, [], ◌∷◌, arith, Option-cases,
  length, err,
}
use procurator.Prelude.HashMap.{
  get, NodupKeys, length-insert, length-remove, insert-NodupKeys, remove-NodupKeys,
}
use procurator.Worker.Dto.{hypervisor, VmSpec, running, CommandPayload}
use procurator.Worker.Vmm.Mock.{
  MockBackend, MockBackendConfig, new_tracker, mock_create, mock_boot, mock_shutdown, mock_delete,
  mock_prepare, mock_spawn, mock_kill, mock_cleanup, display_mock_error,
}
use procurator.Worker.Manager.{
  VmManager, start, bring_up, or_drop, liveness, record_vm, handle_create, handle_delete, tear_down,
  handle, run, new,
}

module _ (config : MockBackendConfig) where
  abbrev pub MockManager : Type 0
  MockManager = VmManager (MockBackend config)

  -- How many of the boots came up.
  abbrev pub booted : Option String → ℕ → ℕ
  booted none boots = boots
  booted (some e) boots = 0

  -- The calls of a VM's life come in order, a tear-down makes its four calls together, and what was
  -- booted is either in the table or torn down.
  pub record IsBalanced (m : MockManager) : Type 0 where
    pub keys : NodupKeys m.vms
    pub spawned : m.world.spawns ≤ m.world.prepares
    pub created : m.world.creates ≤ m.world.spawns
    pub started : m.world.boots ≤ m.world.creates
    pub shut_down : m.world.shutdowns ≡ m.world.kills
    pub deleted : m.world.deletes ≡ m.world.kills
    pub cleaned : m.world.cleanups ≡ m.world.kills
    pub live : length m.vms + m.world.kills ≡ booted config.boot_error m.world.boots

  create-IsBalanced :
      (vm_id : String) (spec : VmSpec) (m : MockManager)
      → get vm_id m.vms ≡ none
      → IsBalanced m
      → IsBalanced (handle_create (MockBackend config) vm_id spec m).1
  unfolding handle_create start bring_up or_drop liveness record_vm mock_create mock_boot
      mock_prepare mock_spawn
  create-IsBalanced vm_id spec m fresh b = ground (
    arith,
    length-insert vm_id (record { spec = spec; client = tt; process = tt; status = running }) m.vms,
    insert-NodupKeys vm_id (record { spec = spec; client = tt; process = tt; status = running })
        m.vms,
  )

  delete-IsBalanced :
      (vm_id : String) (m : MockManager)
      → IsBalanced m
      → IsBalanced (handle_delete (MockBackend config) vm_id m).1
  unfolding handle_delete tear_down mock_shutdown mock_delete mock_kill mock_cleanup
  delete-IsBalanced vm_id m b = elim (Option-cases (get vm_id m.vms)) [
    | inl absent ↦ rw (absent, handle_delete) b
    | inr (h, at) ↦
        rw (at, handle_delete)
          (ground
            (arith, length-remove vm_id h m.vms b.keys at, remove-NodupKeys vm_id m.vms b.keys))
  ]

  -- Each create of a sequence of messages draws an id that is not in the table then.
  abbrev pub FreshIds : List (String × CommandPayload) → MockManager → Type 0
  FreshIds [] m = Unit
  FreshIds ((vm_id, payload) ∷ rest) m =
      (get vm_id m.vms ≡ none) × FreshIds rest (handle (MockBackend config) vm_id payload m).1

  handle-IsBalanced :
      (vm_id : String) (payload : CommandPayload) (m : MockManager)
      → get vm_id m.vms ≡ none
      → IsBalanced m
      → IsBalanced (handle (MockBackend config) vm_id payload m).1
  unfolding handle
  handle-IsBalanced vm_id (CommandPayload.create spec) m fresh b =
      create-IsBalanced vm_id spec m fresh b
  handle-IsBalanced vm_id (CommandPayload.delete id) m fresh b = delete-IsBalanced id m b
  handle-IsBalanced vm_id CommandPayload.list m fresh b = b
  handle-IsBalanced vm_id CommandPayload.get_worker_status m fresh b = b

  -- From a balanced state, whichever calls the backend is set to fail and whatever messages arrive
  -- (each create with a fresh id), the calls stay balanced.
  pub run-IsBalanced :
      (msgs : List (String × CommandPayload)) (m : MockManager)
      → FreshIds msgs m
      → IsBalanced m
      → IsBalanced (run (MockBackend config) msgs m)
  unfolding run
  run-IsBalanced [] m fresh b = b
  run-IsBalanced ((vm_id, payload) ∷ rest) m fresh b =
      run-IsBalanced rest _ fresh.1 (handle-IsBalanced vm_id payload m fresh.0 b)

  pub new-IsBalanced :
      (worker_id : String) → IsBalanced (new (MockBackend config) worker_id new_tracker)
  unfolding new
  new-IsBalanced worker_id = ground arith

  -- On the mock backend, when prepare and spawn succeed and the client's create fails, the error
  -- names the step, the table stays, and no boot, kill or cleanup is called.
  pub create_failed-no_cleanup :
      (vm_id : String) (spec : VmSpec) (m : MockManager) (reason : String)
      → config.prepare_error ≡ none
      → config.spawn_error ≡ none
      → config.create_error ≡ some reason
      → let r = handle_create (MockBackend config) vm_id spec m in
        (r.0 ≡ err (hypervisor ("vm.create failed: " <> ("mock error: " <> reason))))
        × (r.1.vms ≡ m.vms)
        × (r.1.world ≡ record (m.world) {
          prepares = m.world.prepares + 1;
          spawns = m.world.spawns + 1;
          creates = m.world.creates + 1;
        })
  unfolding handle_create start bring_up or_drop record_vm mock_create mock_prepare mock_spawn
      display_mock_error
  create_failed-no_cleanup vm_id spec m reason p s c = ground arith
