-- ===== src/Worker/CloudHypervisor/Backend.antt =====
-- cloud_hypervisor.rs, `CloudHypervisorBackend`: the state that it keeps per VM and its methods.
-- The mutex around that state is held for one access at a time, by one task.
use procurator.Prelude.{
  ◌*◌, ◌%◌, ◌^◌, String, ◌<>◌, Bool, true, false, Option, none, some, List, [], ◌∷◌, if◌then◌else◌,
  ok, err, Eff, pure, gets, modify, ◌>>=◌, ◌>>◌, map_error,
}
use mathlib.Core.Option
use procurator.Prelude.HashMap.{HashMap, get, insert}
use procurator.Worker.Dto.{VmError, display, internal, process_failed, VmSpec}
use procurator.Worker.Vmm.{VmmBackend}
use procurator.Worker.CloudHypervisor.Config.{
  ChVmConfig, ChNetConfig, ChSerialConfig, CloudHypervisorConfig, PreparedVm, Error, display_error,
  ◌</>◌,
}
use procurator.Worker.CloudHypervisor.Host.{Host}
use procurator.Worker.CloudHypervisor.Client
use procurator.Worker.CloudHypervisor.Tap.{tap_name, create_tap_device}
use procurator.Worker.CloudHypervisor.Process
use procurator.Worker.CloudHypervisor.Waiting.{wait_for_socket, attach_tap}
use procurator.Worker.CloudHypervisor.Process.{ChProcess}

-- The host, and the map of prepared VMs.
pub record ChWorld (H : Host) : Type 0 where
  pub host : H.World
  pub prepared : HashMap PreparedVm

-- Steps of `build_config` that do not look at the host.
unfoldable pub serial_config : Option PreparedVm → ChSerialConfig
serial_config (some p) = record { mode = "File"; file = some p.serial_log_path }
serial_config none = record { mode = "Null"; file = none }

unfoldable pub disk_path : VmSpec → Option PreparedVm → String
disk_path spec (some p) = p.writable_disk_path
disk_path spec none = spec.disk_image_path

-- The fallback for the TAP name is not reached: a network needs a prepared VM.
unfoldable pub net_config : Option PreparedVm → Option (List ChNetConfig)
net_config none = none
net_config (some p) =
    if p.network_available
    then some (record { tap = some p.tap_name; ip = none; mask = none; mac = none } ∷ [])
    else none

-- `spec.cpu() as u8` keeps the low byte.
unfoldable pub vm_config : VmSpec → Option PreparedVm → ChVmConfig
vm_config spec prepared_vm = record {
  cpus = record { boot_vcpus = spec.cpu % 2 ^ 8; max_vcpus = spec.cpu % 2 ^ 8 };
  memory = spec.memory_mb * 1024 * 1024;
  payload = some (record {
    kernel = spec.kernel_path;
    cmdline = some spec.cmdline;
    initramfs = some spec.initrd_path;
  });
  disks = record { path = disk_path spec prepared_vm; readonly = some false; direct = none } ∷ [];
  net = net_config prepared_vm;
  rng = some "/dev/urandom";
  console = some "Off";
  serial = some (serial_config prepared_vm);
}

-- Step 4 of `spawn`: the prepared directory, or the one that a prepare would make.
unfoldable pub vm_dir_of : CloudHypervisorConfig → String → HashMap PreparedVm → String
vm_dir_of config vm_id prepared =
    Option.get_or (Option.map (λ (p : PreparedVm). p.vm_dir) (get vm_id prepared))
      (config.socket_dir </> vm_id)

-- Step 7 of `spawn`: the TAP device that the process handle will own.
unfoldable pub tap_of : Option PreparedVm → Option String
tap_of none = none
tap_of (some p) = if p.network_available then some p.tap_name else none

-- The artifacts of step 1 of `prepare`, with their labels.
unfoldable pub artifacts : VmSpec → List (String × String)
artifacts spec =
    ("kernel", spec.kernel_path)
    ∷ ("initrd", spec.initrd_path)
    ∷ ("disk image", spec.disk_image_path)
    ∷ []

module _ (H : Host) where
  -- A host action, as an action of the backend.
  abbrev pub on_host : {E A : Type 0} → Eff H.World E A → Eff (ChWorld H) E A
  on_host m w = ((m w.host).0, record w { host = (m w.host).1 })

  unfoldable pub check_artifacts : List (String × String) → Eff H.World VmError (Unit {0})
  check_artifacts [] w = (ok tt, w)
  check_artifacts ((label, path) ∷ rest) w =
      let next = check_artifacts rest w in
      if H.exists path w then next else (
        err (
            internal (
              "Artifact not found: "
              <> (label
                  <> (" at "
                      <> (path
                          <> ". Ensure the closure has been built or copied to this host."))))),
        w,
      )

  -- Step 6: is there a bridge on the host?
  unfoldable pub network_available : Option String → H.World → Bool
  network_available none w = false
  network_available (some bridge) w = H.exists ("/sys/class/net/" <> bridge) w

  -- Step 7.
  unfoldable pub create_tap : Bool → String → Eff H.World VmError (Unit {0})
  create_tap false tap = pure tt
  create_tap true tap =
      map_error (λ e. internal ("Failed to create TAP device " <> (tap <> (": " <> display e))))
        (create_tap_device H tap)

  -- Steps 1 to 7 of `prepare`: all that touches the host.
  unfoldable pub prepare_host :
      CloudHypervisorConfig → String → VmSpec → Eff H.World VmError PreparedVm
  prepare_host config vm_id spec = do
    check_artifacts (artifacts spec)
    let vm_dir = config.socket_dir </> vm_id
    let writable_disk_path = vm_dir </> "disk.img"
    map_error (λ e. process_failed ("Failed to create VM directory " <> (vm_dir <> (": " <> e))))
        (H.create_dir_all vm_dir)
    map_error
        (λ e. internal (
          "Failed to copy disk image from "
          <> (spec.disk_image_path <> (" to " <> (writable_disk_path <> (": " <> e))))))
        (H.copy spec.disk_image_path writable_disk_path)
    map_error
        (λ e.
          internal
            ("Failed to set writable permissions on " <> (writable_disk_path <> (": " <> e))))
        (H.set_permissions writable_disk_path 0o644)
    available ← gets (network_available config.bridge_name)
    create_tap available (tap_name vm_id)
    pure (record {
      writable_disk_path = writable_disk_path;
      serial_log_path = vm_dir </> "serial.log";
      vm_dir = vm_dir;
      tap_name = tap_name vm_id;
      network_available = available;
    })

  -- Step 8 enters the VM in the map.
  unfoldable pub prepare :
      CloudHypervisorConfig → String → VmSpec → Eff (ChWorld H) VmError (Unit {0})
  prepare config vm_id spec = do
    p ← on_host (prepare_host config vm_id spec)
    modify (λ w. record w { prepared = insert vm_id p w.prepared })

  -- An early return after the child is spawned drops it, and it is killed on drop.
  unfoldable pub or_drop_child :
      H.Child → Eff H.World VmError (Unit {0}) → Eff H.World VmError (Unit {0})
  or_drop_child child m w = elim (m w).0 [
    | ok a ↦ (ok a, (m w).1)
    | err e ↦ (err e, H.drop_child child (m w).1)
  ]

  -- Steps 1 to 6 of `spawn`: all that touches the host.
  unfoldable pub spawn_host : CloudHypervisorConfig → String → String → Eff H.World VmError H.Child
  spawn_host config socket_path vm_dir = do
    map_error (λ e. process_failed ("Failed to create socket dir: " <> e))
        (H.create_dir_all config.socket_dir)
    Process.if_exists H socket_path (H.remove_file socket_path)
    let ch_log_path = vm_dir </> "cloud-hypervisor.log"
    log ←
        map_error
          (λ e. process_failed ("Failed to create CH log file " <> (ch_log_path <> (": " <> e))))
          (H.create_file ch_log_path)
    stderr ←
        map_error (λ e. process_failed ("Failed to clone CH log file handle: " <> e))
          (H.clone_file log)
    child ←
        map_error (λ e. process_failed ("Failed to spawn " <> (config.ch_binary <> (": " <> e))))
          (H.spawn_child config.ch_binary socket_path log stderr)
    or_drop_child child (wait_for_socket H socket_path config.socket_timeout)
    pure child

  unfoldable pub spawn :
      CloudHypervisorConfig → String → Eff (ChWorld H) VmError (String × ChProcess H × String)
  spawn config vm_id = do
    let socket_path = config.socket_dir </> (vm_id <> ".sock")
    vm_dir ← gets (λ w. vm_dir_of config vm_id w.prepared)
    child ← on_host (spawn_host config socket_path vm_dir)
    tap ← gets (λ w. tap_of (get vm_id w.prepared))
    pure (
      socket_path,
      record { child = child; socket_path = socket_path; vm_dir = vm_dir; tap_name = tap },
      socket_path,
    )

  -- `attach_tap_to_bridge`, up to its loop.
  unfoldable pub attach_prepared :
      String → String → Option PreparedVm → Eff H.World VmError (Unit {0})
  attach_prepared vm_id bridge none w =
      (err (internal ("No prepared state for VM " <> (vm_id <> " — cannot find TAP name"))), w)
  attach_prepared vm_id bridge (some p) w =
      if p.network_available then attach_tap H p.tap_name bridge w else (ok tt, w)

  unfoldable pub attach_network :
      CloudHypervisorConfig → String → Eff (ChWorld H) VmError (Unit {0})
  attach_network config vm_id w = elim config.bridge_name [
    | none ↦ (ok tt, w)
    | some bridge ↦ on_host (attach_prepared vm_id bridge (get vm_id w.prepared)) w
  ]

  unfoldable pub build_config : String → VmSpec → ChWorld H → ChVmConfig
  build_config vm_id spec w = vm_config spec (get vm_id w.prepared)

  -- `impl VmmBackend`; a client is its socket's path.
  abbrev pub CloudHypervisorBackend : CloudHypervisorConfig → VmmBackend
  CloudHypervisorBackend config = record {
    World = ChWorld H;
    Client = String;
    Process = ChProcess H;
    VmConfig = ChVmConfig;
    Error = Error;
    ExitStatus = H.ExitStatus;
    display_error = display_error;
    display_status = H.display_status;
    create = λ c v. on_host (Client.create H c v);
    boot = λ c. on_host (Client.boot H c);
    shutdown = λ c. on_host (Client.shutdown H c);
    delete = λ c. on_host (Client.delete H c);
    kill = λ p. on_host (Process.kill H p);
    try_wait = λ p. on_host (Process.try_wait H p);
    cleanup = λ p. on_host (Process.cleanup H p);
    drop_process = λ p w. record w { host = Process.drop_process H p w.host };
    prepare = prepare config;
    spawn = spawn config;
    build_config = build_config;
    attach_network = attach_network config;
    sleep = λ d w. record w { host = H.sleep d w.host };
  }
