-- ===== src/Worker/CloudHypervisor/Laws.antt =====
-- cloud_hypervisor.rs: what a prepared VM is configured with, and its TAP device's name.
use procurator.Prelude.{
  ℕ, ◌*◌, ◌%◌, String, ◌<>◌, ◌≡◌, refl, sym, ap, ◌∙◌, ◌⊎◌, inl, inr, Bool, true, false, Option,
  none, some, [], ◌∷◌, if◌then◌else◌, arith, Result, ok, err, modify, resume, resume_rule, ◌>>=◌,
  ◌>>◌,
}
use mathlib.Core.Path.{subst}
use Prim.Native.String.{len, slice}
use text.Mathlib.TextPositions.{len-append, slice-append_left}
use procurator.Prelude.HashMap.{insert, get-insert_self}
use procurator.Worker.Dto.{VmError, VmSpec}
use procurator.Worker.CloudHypervisor.Config.{ChVmConfig, CloudHypervisorConfig, PreparedVm, ◌</>◌}
use procurator.Worker.CloudHypervisor.Host.{Host}
use procurator.Worker.CloudHypervisor.Tap.{tap_name, create_tap_ioctl}
use procurator.Worker.CloudHypervisor.Backend.{
  ChWorld, prepare, artifacts, check_artifacts, prepare_host, network_available, vm_config,
  disk_path, net_config, serial_config, build_config,
}

-- A request for a multiple of 256 CPUs is configured with none, whether or not it was prepared.
pub vm_config_no_cpus :
    (spec : VmSpec) (p : Option PreparedVm) (k : ℕ)
    → spec.cpu ≡ 256 * k
    → (vm_config spec p).cpus.boot_vcpus ≡ 0
unfolding vm_config
vm_config_no_cpus spec p k h = omega arith

tap_name_lem : (head rest : String) → len head ≡ 11 → tap_name (head <> rest) ≡ "pcr-" <> head
unfolding tap_name
tap_name_lem head rest h =
    ap (λ s. "pcr-" <> s)
      (subst (λ n. slice (head <> rest) 0 n ≡ head) h (slice-append_left head rest))

-- The name made from an id whose first part has 11 bytes has 15 bytes, so the ioctl's own check of
-- the length never refuses it: a creation just opens the device, creates the TAP and keeps it.
tap_name_fits :
    (H : Host) (head rest : String) (w : H.World)
    → len head ≡ 11
    → (len (tap_name (head <> rest)) ≡ 15)
      × (create_tap_ioctl H (tap_name (head <> rest)) w
          ≡ (H.open_tun >>= λ fd. H.tunsetiff fd (tap_name (head <> rest)) >> H.tunsetpersist fd) w)
unfolding create_tap_ioctl
tap_name_fits H head rest w h = rw (tap_name_lem head rest h) (fits, simp fits)
  where
    fits : len ("pcr-" <> head) ≡ 15
    fits = omega (arith, len-append "pcr-" head)

-- Two ids that agree on their first 11 bytes share the name of their TAP device.
pub tap_name_shared :
    (head rest rest' : String) → len head ≡ 11 → tap_name (head <> rest) ≡ tap_name (head <> rest')
tap_name_shared head rest rest' h = tap_name_lem head rest h ∙ sym (tap_name_lem head rest' h)

module _ (H : Host) (config : CloudHypervisorConfig) (vm_id : String) (spec : VmSpec) where
  -- The host when the disk image has been copied.
  abbrev copied : H.World → H.World
  copied w =
      let vm_dir = config.socket_dir </> vm_id in
      let disk = vm_dir </> "disk.img" in
      (H.set_permissions disk 0o644
        (H.copy spec.disk_image_path disk (H.create_dir_all vm_dir w).1).1).1

  -- The configured bridge is on the host.
  abbrev has_bridge : Option String → H.World → Bool
  has_bridge none w = false
  has_bridge (some bridge) w = H.exists ("/sys/class/net/" <> bridge) w

  -- What a prepare on a host leaves for the later steps: its artifacts were there, and it has a
  -- network when the bridge is there after the copy.
  abbrev pub IsPrepared : H.World → PreparedVm → Type 0
  IsPrepared w p =
      (H.exists spec.kernel_path w ≡ true)
      × (H.exists spec.initrd_path w ≡ true)
      × (H.exists spec.disk_image_path w ≡ true)
      × (p.vm_dir ≡ config.socket_dir </> vm_id)
      × (p.writable_disk_path ≡ config.socket_dir </> vm_id </> "disk.img")
      × (p.serial_log_path ≡ config.socket_dir </> vm_id </> "serial.log")
      × (p.tap_name ≡ "pcr-" <> slice vm_id 0 11)
      × (p.network_available ≡ has_bridge config.bridge_name (copied w))

  abbrev Prepares : H.World → Result PreparedVm VmError → Type 0
  Prepares w (ok p) = IsPrepared w p
  Prepares w (err e) = Unit

  network_available-has_bridge :
      (o : Option String) (w : H.World) → network_available H o w ≡ has_bridge o w
  unfolding network_available
  network_available-has_bridge none w = refl
  network_available-has_bridge (some bridge) w = refl

  checked :
      (w : H.World)
      → let r = check_artifacts H (artifacts spec) w in
        (r.1 ≡ w)
        × ((r.0 ≡ ok tt)
            → (H.exists spec.kernel_path w ≡ true)
              × (H.exists spec.initrd_path w ≡ true)
              × (H.exists spec.disk_image_path w ≡ true))
  unfolding check_artifacts artifacts
  checked w = (ground arith, λ h. ground arith)

  prepare_host-Prepares : (w : H.World) → Prepares w (prepare_host H config vm_id spec w).0
  unfolding prepare_host tap_name
  prepare_host-Prepares w =
      resume_rule (λ r w'. Prepares w r) (check_artifacts H (artifacts spec) w).0 _ _ (λ e q. tt)
        λ _ q.
          let (same, there) = checked w in
          let found = there q in
          let available = network_available-has_bridge config.bridge_name (copied w) in
          rw same (ground (arith, available))

  -- The configuration that belongs to a prepared VM.
  abbrev pub configured : PreparedVm → ChVmConfig
  configured p = record {
    cpus = record { boot_vcpus = spec.cpu % 256; max_vcpus = spec.cpu % 256 };
    memory = spec.memory_mb * 1024 * 1024;
    payload = some (record {
      kernel = spec.kernel_path;
      cmdline = some spec.cmdline;
      initramfs = some spec.initrd_path;
    });
    disks = record { path = p.writable_disk_path; readonly = some false; direct = none } ∷ [];
    net =
        if p.network_available
        then some (record { tap = some p.tap_name; ip = none; mask = none; mac = none } ∷ [])
        else none;
    rng = some "/dev/urandom";
    console = some "Off";
    serial = some (record { mode = "File"; file = some p.serial_log_path });
  }

  vm_config-configured : (p : PreparedVm) → vm_config spec (some p) ≡ configured p
  unfolding vm_config disk_path net_config serial_config
  vm_config-configured p = refl

  -- A prepare that succeeds enters its VM, which the configuration is then made from; one that
  -- fails enters none.
  abbrev pub Outcome : ChWorld H → Result (Unit {0}) VmError × ChWorld H → Type 0
  Outcome w r =
      ((e : VmError) × (r.0 ≡ err e) × (r.1.prepared ≡ w.prepared))
      ⊎ ((p : PreparedVm) × (r.0 ≡ ok tt)
          × (r.1.prepared ≡ insert vm_id p w.prepared)
          × IsPrepared w.host p
          × (build_config H vm_id spec r.1 ≡ configured p))

  entered :
      (w : ChWorld H) (q : Result PreparedVm VmError × H.World)
      → Prepares w.host q.0
      → Outcome w (
          resume q.0
            (λ p. modify (λ x. record x { prepared = insert vm_id p x.prepared }))
            (record w { host = q.1 }))
  unfolding build_config
  entered w (err e, h) is = inl (e, refl, refl)
  entered w (ok p, h) is = inr (
    p,
    refl,
    refl,
    is,
    ap (vm_config spec) (get-insert_self vm_id p w.prepared) ∙ vm_config-configured p,
  )

  -- A prepare that succeeds found the kernel, the initrd and the disk image of the spec. After it,
  -- the VM's configuration boots this kernel and initrd from the disk copy in the VM's own directory,
  -- logs to the serial log there, and has a network, over its own TAP device, just when a bridge is
  -- configured and on the host after the copy. A prepare that fails leaves the map of prepared VMs as
  -- it was.
  pub prepare_lem : (w : ChWorld H) → Outcome w (prepare H config vm_id spec w)
  unfolding prepare
  prepare_lem w = entered w (prepare_host H config vm_id spec w.host) (prepare_host-Prepares w.host)
