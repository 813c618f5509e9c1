-- ===== src/Worker/CloudHypervisor/Tap.antt =====
-- cloud_hypervisor.rs: TAP devices, by netlink and by `ioctl`.
use procurator.Prelude.{
  ℕ, String, ◌<>◌, Option, none, some, leb, if◌then◌else◌, Eff, pure, fail, ◌>>=◌, ◌>>◌, map_error,
  best_effort,
}
use Prim.Native.String.{len, slice}
use procurator.Worker.Dto.{VmError, internal}
use procurator.Worker.CloudHypervisor.Host.{Host}

-- `libc::IFNAMSIZ`
abbrev pub ifnamsiz : ℕ
ifnamsiz = 16

-- Step 5 of `prepare`. A UUID is longer than 11 bytes, so the slice does not panic.
unfoldable pub tap_name : String → String
tap_name vm_id = "pcr-" <> slice vm_id 0 11

module _ (H : Host) where
  open H use {World, Netlink}

  abbrev internally : {A : Type 0} → String → String → Eff World String A → Eff World VmError A
  internally before after = map_error (λ e. internal (before <> (e <> after)))

  unfoldable pub connect : Eff World VmError Netlink
  connect = internally "netlink connection failed: " "" H.connect

  -- `if let Some(link) = msg { … del … }`
  unfoldable pub delete_link : String → Netlink → Option ℕ → Eff World VmError (Unit {0})
  delete_link tap handle none = pure tt
  delete_link tap handle (some index) =
      internally ("netlink del " <> (tap <> " failed: ")) "" (H.link_del handle index)

  unfoldable pub delete_tap_device : String → Eff World VmError (Unit {0})
  delete_tap_device tap = do
    handle ← connect
    link ← internally ("netlink get " <> (tap <> " failed: ")) "" (H.link_get handle tap)
    delete_link tap handle link

  -- The device is opened before the name is checked.
  unfoldable pub create_tap_ioctl : String → Eff World String (Unit {0})
  create_tap_ioctl tap = do
    fd ← H.open_tun
    if leb ifnamsiz (len tap) then fail ("TAP name too long: " <> (tap <> " (max 15)")) else pure tt
    H.tunsetiff fd tap
    H.tunsetpersist fd

  unfoldable pub found_link : String → Option ℕ → Eff World VmError ℕ
  found_link tap none = fail (internal ("TAP " <> (tap <> " not found after creation")))
  found_link tap (some index) = pure index

  unfoldable pub create_tap_device : String → Eff World VmError (Unit {0})
  create_tap_device tap = do
    best_effort (delete_tap_device tap)
    internally "TAP ioctl creation failed: " "" (create_tap_ioctl tap)
    handle ← connect
    link ← internally ("netlink get " <> (tap <> " after create: ")) "" (H.link_get handle tap)
    index ← found_link tap link
    internally ("netlink set " <> (tap <> " up failed: ")) "" (H.link_up handle index)
