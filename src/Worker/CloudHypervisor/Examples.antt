-- ===== src/Worker/CloudHypervisor/Examples.antt =====
-- A small host for tests of cloud_hypervisor.rs: its world is the time, every action succeeds, and
-- every path is there from 25 ms on. The backend's theorems at concrete inputs.
use procurator.Prelude.{
  ℕ, ◌+◌, ◌-◌, ◌≤◌, String, ◌≡◌, ◌≢◌, ◌⊎◌, Bool, true, none, some, List, [], ◌∷◌, arith, leb, ok,
  err, Eff,
}
use procurator.Prelude.HashMap.{get}
use procurator.Worker.Dto.{VmSpec, CommandPayload}
use procurator.Worker.Manager.{VmManager, run}
use procurator.Worker.CloudHypervisor.Config.{PreparedVm, default_config}
use procurator.Worker.CloudHypervisor.Host.{Host, IsTimely}
use procurator.Worker.CloudHypervisor.Waiting.{wait_for_socket, timed_out, wait_for_socket_lem}
use procurator.Worker.CloudHypervisor.Backend.{ChWorld, prepare, CloudHypervisorBackend}
use procurator.Worker.CloudHypervisor.Laws.{Outcome, prepare_lem}
use procurator.Worker.CloudHypervisor.Prepared.{run-Remembered}

abbrev done : {A : Type 0} → A → Eff ℕ String A
done a w = (ok a, w)

abbrev test_host : Host
test_host = record {
  World = ℕ;
  File = Unit;
  Child = String;
  ExitStatus = ℕ;
  Response = Bool;
  Netlink = Unit;
  Fd = Unit;
  display_status = λ s. "exited";
  debug_duration = λ d. "a while";
  to_json = λ c. ok "{}";
  exists = λ path w. leb 25 w;
  read_to_string = λ path. done "";
  create_dir_all = λ path. done tt;
  copy = λ a b. done tt;
  set_permissions = λ path mode. done tt;
  remove_file = λ path. done tt;
  remove_dir_all = λ path. done tt;
  create_file = λ path. done tt;
  clone_file = λ f. done tt;
  spawn_child = λ binary socket out err. done socket;
  kill_child = λ c. done tt;
  try_wait_child = λ c. done none;
  drop_child = λ c w. w;
  put = λ socket endpoint text. done true;
  is_success = λ r. r;
  body = λ r. done "";
  connect = done tt;
  link_get = λ n name. done (some 7);
  link_del = λ n i. done tt;
  link_up = λ n i. done tt;
  link_attach = λ n i j w. (err "busy", w);
  open_tun = done tt;
  tunsetiff = λ fd name. done tt;
  tunsetpersist = λ fd. done tt;
  now = λ w. w;
  sleep = λ d w. w + d;
}

abbrev spec : VmSpec
spec = record {
  toplevel = "/nix/store/abc-system";
  kernel_path = "/nix/store/abc-kernel";
  initrd_path = "/nix/store/abc-initrd";
  disk_image_path = "/nix/store/abc-disk";
  cmdline = "console=ttyS0";
  cpu = 512;
  memory_mb = 1024;
  network_allowed_domains = [];
}

abbrev prepared_vm : PreparedVm
prepared_vm = record {
  writable_disk_path = "/vms/a/disk.img";
  serial_log_path = "/vms/a/serial.log";
  vm_dir = "/vms/a";
  tap_name = "pcr-a";
  network_available = true;
}

test_host-IsTimely : IsTimely test_host
test_host-IsTimely = record { sleeps = λ d w. omega arith }

wait_for_socket_example :
    let r = wait_for_socket test_host "/vms/a.sock" 100 3 in
    ((r.0 ≡ ok tt) × (test_host.exists "/vms/a.sock" r.1 ≡ true))
    ⊎ ((r.0 ≡ err (timed_out test_host "/vms/a.sock" 100)) × (100 ≤ test_host.now r.1 - 3))
wait_for_socket_example = wait_for_socket_lem test_host "/vms/a.sock" 100 3 test_host-IsTimely

abbrev empty_world : ChWorld test_host
empty_world = record { host = 100; prepared = [] }

prepare_example :
    Outcome test_host default_config "01890a5d-ac96" spec empty_world
      (prepare test_host default_config "01890a5d-ac96" spec empty_world)
prepare_example = prepare_lem test_host default_config "01890a5d-ac96" spec empty_world

abbrev manager : VmManager (CloudHypervisorBackend test_host default_config)
manager = record {
  vms = [];
  worker_id = "worker-local";
  world = record { host = 100; prepared = ("a", prepared_vm) ∷ [] };
}

abbrev messages : List (String × CommandPayload)
messages = ("b", CommandPayload.create spec) ∷ ("x", CommandPayload.delete "a") ∷ []

run-Remembered_example :
    get "a" (run (CloudHypervisorBackend test_host default_config) messages manager).world.prepared
    ≢ none
unfolding get
run-Remembered_example =
    run-Remembered test_host default_config "a" messages manager (λ e. absurd (cc e))
