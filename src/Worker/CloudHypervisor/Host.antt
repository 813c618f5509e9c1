-- ===== src/Worker/CloudHypervisor/Host.antt =====
-- What the cloud-hypervisor backend uses of the host: files, processes, HTTP over unix sockets,
-- netlink, `/dev/net/tun`, the clock, and the JSON text of a configuration. None of it is part of
-- the repository, so it is a parameter. Errors are given by their messages.
use procurator.Prelude.{ℕ, ◌+◌, ◌≤◌, String, Bool, Option, Result, Eff}
use procurator.Worker.CloudHypervisor.Config.{ChVmConfig}

pub record Host : Type 1 where
  pub World : Type 0
  pub File : Type 0
  pub Child : Type 0
  pub ExitStatus : Type 0
  pub Response : Type 0
  pub Netlink : Type 0
  pub Fd : Type 0
  pub display_status : ExitStatus → String
  pub debug_duration : ℕ → String
  pub to_json : ChVmConfig → Result String String
  -- files
  pub exists : String → World → Bool
  pub read_to_string : String → Eff World String String
  pub create_dir_all : String → Eff World String (Unit {0})
  pub copy : String → String → Eff World String (Unit {0})
  pub set_permissions : String → ℕ → Eff World String (Unit {0})
  pub remove_file : String → Eff World String (Unit {0})
  pub remove_dir_all : String → Eff World String (Unit {0})
  pub create_file : String → Eff World String File
  pub clone_file : File → Eff World String File
  -- processes: a binary, its API socket, and the files for its output
  pub spawn_child : String → String → File → File → Eff World String Child
  pub kill_child : Child → Eff World String (Unit {0})
  pub try_wait_child : Child → Eff World String (Option ExitStatus)
  pub drop_child : Child → World → World
  -- HTTP: a `PUT` to an endpoint of a socket, with a body if there is one
  pub put : String → String → Option String → Eff World String Response
  pub is_success : Response → Bool
  pub body : Response → Eff World String String
  -- netlink
  pub connect : Eff World String Netlink
  pub link_get : Netlink → String → Eff World String (Option ℕ)
  pub link_del : Netlink → ℕ → Eff World String (Unit {0})
  pub link_up : Netlink → ℕ → Eff World String (Unit {0})
  pub link_attach : Netlink → ℕ → ℕ → Eff World String (Unit {0})
  -- `/dev/net/tun`
  pub open_tun : Eff World String Fd
  pub tunsetiff : Fd → String → Eff World String (Unit {0})
  pub tunsetpersist : Fd → Eff World String (Unit {0})
  -- the clock, in milliseconds
  pub now : World → ℕ
  pub sleep : ℕ → World → World

-- What the documentation of `tokio::time::sleep` promises.
pub record IsTimely (H : Host) : Type 0 where
  pub sleeps : (d : ℕ) (w : H.World) → H.now w + d ≤ H.now (H.sleep d w)
