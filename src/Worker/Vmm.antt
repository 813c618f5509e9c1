-- ===== src/Worker/Vmm.antt =====
-- worker/src/vmm/interface.rs: the traits `Vmm`, `VmmProcess` and `VmmBackend` as one interface.
pub mod Mock
use procurator.Prelude.{
  ℕ, zero, suc, ◌+◌, ◌-◌, ◌*◌, ◌/◌, ◌%◌, ◌^◌, ◌≤◌, ◌<◌, min, String, ◌<>◌, ◌≡◌, refl, sym, ap, ◌∙◌,
  ◌≢◌, ◌↔◌, ◌⊎◌, inl, inr, Bool, true, false, not, ◌&&◌, ◌||◌, Option, none, some, List, [], ◌∷◌,
  ◌++◌, map, arith, eq_iff, str_eq, ltb, leb, ◌==◌, if◌then◌else◌, Bool-cases, Option-cases, length,
  retain, count, All, take, Result, ok, err, map_err, map_ok, and_then, ok_or, Eff, pure, fail,
  gets, modify, resume, ◌>>=◌, ◌>>◌, map_error, best_effort,
}
use procurator.Worker.Dto.{VmError, VmSpec}

-- What the methods of a backend, of its clients and of its process handles do is an action on the
-- backend's world: its own state, and the part of the host that it touches. `drop_process` is the
-- destructor of a process handle, and `sleep` lets the host run on for some milliseconds.
pub record VmmBackend : Type 1 where
  pub World : Type 0
  pub Client : Type 0
  pub Process : Type 0
  pub VmConfig : Type 0
  pub Error : Type 0
  pub ExitStatus : Type 0
  pub display_error : Error → String
  pub display_status : ExitStatus → String
  pub create : Client → VmConfig → Eff World Error (Unit {0})
  pub boot : Client → Eff World Error (Unit {0})
  pub shutdown : Client → Eff World Error (Unit {0})
  pub delete : Client → Eff World Error (Unit {0})
  pub kill : Process → Eff World VmError (Unit {0})
  pub try_wait : Process → Eff World VmError (Option ExitStatus)
  pub cleanup : Process → Eff World VmError (Unit {0})
  pub drop_process : Process → World → World
  pub prepare : String → VmSpec → Eff World VmError (Unit {0})
  pub spawn : String → Eff World VmError (Client × Process × String)
  pub build_config : String → VmSpec → World → VmConfig
  pub attach_network : String → Eff World VmError (Unit {0})
  pub sleep : ℕ → World → World
