-- ===== src/Worker/Vmm/Mock.antt =====
-- worker/src/vmm/mock.rs: the backend of the worker's tests. It counts calls and injects failures.
use procurator.Prelude.{ℕ, ◌+◌, String, ◌<>◌, Option, none, some, Result, ok, err, map_ok, Eff}
use procurator.Worker.Dto.{VmError, internal, process_failed, VmSpec}
use procurator.Worker.Vmm.{VmmBackend}

pub record MockBackendConfig : Type 0 where
  pub prepare_error : Option String
  pub spawn_error : Option String
  pub create_error : Option String
  pub boot_error : Option String
  pub shutdown_error : Option String
  pub delete_error : Option String

abbrev pub default_config : MockBackendConfig
default_config = record {
  prepare_error = none;
  spawn_error = none;
  create_error = none;
  boot_error = none;
  shutdown_error = none;
  delete_error = none;
}

-- The counters, which the backend, the clients and the processes share by `Arc`.
pub record MockCallTracker : Type 0 where
  pub prepares : ℕ
  pub spawns : ℕ
  pub creates : ℕ
  pub boots : ℕ
  pub shutdowns : ℕ
  pub deletes : ℕ
  pub kills : ℕ
  pub cleanups : ℕ

abbrev pub new_tracker : MockCallTracker
new_tracker = record {
  prepares = 0;
  spawns = 0;
  creates = 0;
  boots = 0;
  shutdowns = 0;
  deletes = 0;
  kills = 0;
  cleanups = 0;
}

pub record MockVmConfig : Type 0 where
  pub cpu : ℕ
  pub memory_mb : ℕ
  pub kernel_path : String
  pub disk_image_path : String

-- `if let Some(ref e) = self.config.…_error { return Err(…) }`
abbrev inject : {E : Type 0} → Option String → (String → E) → Result (Unit {0}) E
inject none f = ok tt
inject (some e) f = err (f e)

module _ (config : MockBackendConfig) where
  unfoldable pub mock_create : MockVmConfig → Eff MockCallTracker String (Unit {0})
  mock_create c t = (inject config.create_error (λ e. e), record t { creates = t.creates + 1 })

  unfoldable pub mock_boot : Eff MockCallTracker String (Unit {0})
  mock_boot t = (inject config.boot_error (λ e. e), record t { boots = t.boots + 1 })

  unfoldable pub mock_shutdown : Eff MockCallTracker String (Unit {0})
  mock_shutdown t =
      (inject config.shutdown_error (λ e. e), record t { shutdowns = t.shutdowns + 1 })

  unfoldable pub mock_delete : Eff MockCallTracker String (Unit {0})
  mock_delete t = (inject config.delete_error (λ e. e), record t { deletes = t.deletes + 1 })

  unfoldable pub mock_prepare : Eff MockCallTracker VmError (Unit {0})
  mock_prepare t = (inject config.prepare_error internal, record t { prepares = t.prepares + 1 })

  unfoldable pub mock_spawn : String → Eff MockCallTracker VmError (Unit × Unit × String)
  mock_spawn vm_id t = (
    map_ok (λ _. (tt, tt, "/tmp/mock/" <> vm_id <> ".sock"))
        (inject config.spawn_error process_failed),
    record t { spawns = t.spawns + 1 },
  )

unfoldable pub mock_kill : Eff MockCallTracker VmError (Unit {0})
mock_kill t = (ok tt, record t { kills = t.kills + 1 })

unfoldable pub mock_cleanup : Eff MockCallTracker VmError (Unit {0})
mock_cleanup t = (ok tt, record t { cleanups = t.cleanups + 1 })

-- `impl Display for MockVmError`
unfoldable pub display_mock_error : String → String
display_mock_error e = "mock error: " <> e

unfoldable pub mock_build_config : VmSpec → MockVmConfig
mock_build_config spec = record {
  cpu = spec.cpu;
  memory_mb = spec.memory_mb;
  kernel_path = spec.kernel_path;
  disk_image_path = spec.disk_image_path;
}

-- A mock process is always alive, has no destructor, and no network.
abbrev pub MockBackend : MockBackendConfig → VmmBackend
MockBackend config = record {
  World = MockCallTracker;
  Client = Unit {0};
  Process = Unit {0};
  VmConfig = MockVmConfig;
  Error = String;
  ExitStatus = ℕ;
  display_error = display_mock_error;
  display_status = λ _. "";
  create = λ _ c. mock_create config c;
  boot = λ _. mock_boot config;
  shutdown = λ _. mock_shutdown config;
  delete = λ _. mock_delete config;
  kill = λ _. mock_kill;
  try_wait = λ _ t. (ok none, t);
  cleanup = λ _. mock_cleanup;
  drop_process = λ _ t. t;
  prepare = λ _ _. mock_prepare config;
  spawn = mock_spawn config;
  build_config = λ _ spec _. mock_build_config spec;
  attach_network = λ _ t. (ok tt, t);
  sleep = λ _ t. t;
}
