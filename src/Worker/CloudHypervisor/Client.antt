-- ===== src/Worker/CloudHypervisor/Client.antt =====
-- cloud_hypervisor.rs, `impl Vmm for CloudHypervisor`: the four REST calls of one VM.
use procurator.Prelude.{
  String, ◌<>◌, none, some, if◌then◌else◌, ok, map_err, Eff, pure, fail, ◌>>=◌, map_error,
}
use procurator.Worker.CloudHypervisor.Config.{
  ChVmConfig, Error, communication, operation_failed, serialization,
}
use procurator.Worker.CloudHypervisor.Host.{Host}

module _ (H : Host) where
  open H use {World, Response}

  -- The body of a response that is no success, behind a prefix.
  unfoldable pub refused : {A : Type 0} → String → Response → Eff World Error A
  refused prefix resp = do
    text ← map_error communication (H.body resp)
    fail (operation_failed (prefix <> text))

  unfoldable pub accepted : String → Response → Eff World Error (Unit {0})
  accepted prefix resp w = if H.is_success resp then (ok tt, w) else refused prefix resp w

  -- `self` is the socket's path.
  unfoldable pub create : String → ChVmConfig → Eff World Error (Unit {0})
  create socket config = do
    body ← (λ w. (map_err serialization (H.to_json config), w))
    resp ← map_error communication (H.put socket "/api/v1/vm.create" (some body))
    accepted "Failed to create VM: " resp

  -- The body is read whether or not the boot succeeded.
  unfoldable pub boot : String → Eff World Error (Unit {0})
  boot socket = do
    resp ← map_error communication (H.put socket "/api/v1/vm.boot" none)
    text ← map_error communication (H.body resp)
    if H.is_success resp then pure tt else fail (operation_failed ("Failed to boot VM: " <> text))

  unfoldable pub shutdown : String → Eff World Error (Unit {0})
  shutdown socket = do
    resp ← map_error communication (H.put socket "/api/v1/vm.shutdown" none)
    accepted "Failed to shutdown VM: " resp

  unfoldable pub delete : String → Eff World Error (Unit {0})
  delete socket = do
    resp ← map_error communication (H.put socket "/api/v1/vm.delete" none)
    accepted "Failed to delete VM: " resp
