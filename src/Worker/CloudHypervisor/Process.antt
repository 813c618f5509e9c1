-- ===== src/Worker/CloudHypervisor/Process.antt =====
-- cloud_hypervisor.rs, `impl VmmProcess for ChProcess`: the handle to one hypervisor process.
use procurator.Prelude.{
  String, ◌<>◌, Option, none, some, if◌then◌else◌, ok, Eff, pure, ◌>>◌, map_error, best_effort,
}
use procurator.Worker.Dto.{VmError, process_failed}
use procurator.Worker.CloudHypervisor.Config.{◌</>◌}
use procurator.Worker.CloudHypervisor.Host.{Host}
use procurator.Worker.CloudHypervisor.Tap.{delete_tap_device}

pub record ChProcess (H : Host) : Type 0 where
  pub child : H.Child
  pub socket_path : String
  pub vm_dir : String
  pub tap_name : Option String

module _ (H : Host) where
  open H use {World}

  unfoldable pub kill : ChProcess H → Eff World VmError (Unit {0})
  kill p =
      map_error (λ e. process_failed ("Failed to kill CH process: " <> e)) (H.kill_child p.child)

  unfoldable pub try_wait : ChProcess H → Eff World VmError (Option H.ExitStatus)
  try_wait p =
      map_error (λ e. process_failed ("Failed to check CH process: " <> e))
        (H.try_wait_child p.child)

  -- An action on a path that is there, whose error is dropped.
  unfoldable pub if_exists :
      {E : Type 0} → String → Eff World String (Unit {0}) → Eff World E (Unit {0})
  if_exists path m w = if H.exists path w then (ok tt, (m w).1) else (ok tt, w)

  unfoldable pub delete_tap : Option String → Eff World VmError (Unit {0})
  delete_tap none = pure tt
  delete_tap (some tap) = best_effort (delete_tap_device H tap)

  -- The hypervisor's log is read to be logged.
  unfoldable pub cleanup : ChProcess H → Eff World VmError (Unit {0})
  cleanup p = do
    if_exists (p.vm_dir </> "cloud-hypervisor.log")
        (best_effort (H.read_to_string (p.vm_dir </> "cloud-hypervisor.log")))
    delete_tap p.tap_name
    if_exists p.socket_path (H.remove_file p.socket_path)
    if_exists p.vm_dir (H.remove_dir_all p.vm_dir)

  -- The process is spawned with `kill_on_drop(true)`.
  unfoldable pub drop_process : ChProcess H → World → World
  drop_process p w = H.drop_child p.child w
