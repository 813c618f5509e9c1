-- ===== src/Worker/Manager/Keeps.antt =====
-- vm_manager.rs: what every method of a backend keeps of its world, the manager keeps.
use procurator.Prelude.{
  ℕ, String, ◌<>◌, inl, inr, Option, none, some, List, [], ◌∷◌, Option-cases, Result, ok, err,
  map_err, Result-cases, Eff, resume,
}
use procurator.Prelude.HashMap.{get}
use procurator.Worker.Dto.{VmError, hypervisor, VmSpec, CommandPayload}
use procurator.Worker.Vmm.{VmmBackend}
use procurator.Worker.Manager.{
  VmManager, VmHandle, start, bring_up, or_drop, liveness, record_vm, handle_create, handle_delete,
  tear_down, handle, run,
}

-- An effect keeps a predicate on its world.
abbrev pub Keeps : {W E A : Type 0} → (W → Type 0) → Eff W E A → Type 0
Keeps {W} P m = (w : W) → P w → P (m w).1

pub resume-Keeps :
    {W E A B : Type 0} (P : W → Type 0) (r : Result A E) (f : A → Eff W E B) (w : W)
    → P w
    → ((a : A) → Keeps P (f a))
    → P (resume r f w).1
resume-Keeps P (ok a) f w h next = next a w h
resume-Keeps P (err e) f w h next = h

-- What the methods of a backend keep.
pub record BackendKeeps (B : VmmBackend) (P : B.World → Type 0) : Type 0 where
  pub create : (c : B.Client) (v : B.VmConfig) → Keeps P (B.create c v)
  pub boot : (c : B.Client) → Keeps P (B.boot c)
  pub shutdown : (c : B.Client) → Keeps P (B.shutdown c)
  pub delete : (c : B.Client) → Keeps P (B.delete c)
  pub kill : (p : B.Process) → Keeps P (B.kill p)
  pub try_wait : (p : B.Process) → Keeps P (B.try_wait p)
  pub cleanup : (p : B.Process) → Keeps P (B.cleanup p)
  pub drop_process : (p : B.Process) (w : B.World) → P w → P (B.drop_process p w)
  pub prepare : (id : String) (s : VmSpec) → Keeps P (B.prepare id s)
  pub spawn : (id : String) → Keeps P (B.spawn id)
  pub attach_network : (id : String) → Keeps P (B.attach_network id)
  pub sleep : (d : ℕ) (w : B.World) → P w → P (B.sleep d w)

module _ (B : VmmBackend) (P : B.World → Type 0) (k : BackendKeeps B P) where
  liveness-Keeps :
      (p : B.Process) (r : Result (Option B.ExitStatus) VmError) → Keeps P (liveness B p r)
  unfolding liveness
  liveness-Keeps p (ok (some st)) w h = k.cleanup p w h
  liveness-Keeps p (ok none) w h = h
  liveness-Keeps p (err e) w h = h

  bring_up-Keeps :
      (vm_id : String) (spec : VmSpec) (c : B.Client) (p : B.Process)
      → Keeps P (bring_up B vm_id spec c p)
  unfolding bring_up
  bring_up-Keeps vm_id spec c p w h =
      let config = B.build_config vm_id spec w in
      resume-Keeps P
        (map_err (λ e. hypervisor ("vm.create failed: " <> B.display_error e))
          (B.create c config w).0)
        _ _ (k.create c config w h)
        λ _ w₁ h₁.
          resume-Keeps P
            (map_err (λ e. hypervisor ("vm.boot failed: " <> B.display_error e)) (B.boot c w₁).0) _
            _ (k.boot c w₁ h₁)
            λ _ w₂ h₂.
              resume-Keeps P (B.attach_network vm_id w₂).0 _ _ (k.attach_network vm_id w₂ h₂)
                λ _ w₃ h₃.
                  let s = B.try_wait p (B.sleep 500 w₃) in
                  resume-Keeps P (liveness B p s.0 s.1).0 _ _
                    (liveness-Keeps p s.0 s.1 (k.try_wait p _ (k.sleep 500 w₃ h₃))) λ _ w₄ h₄. h₄

  or_drop-Keeps :
      (p : B.Process) (m : Eff B.World VmError (VmHandle B)) → Keeps P m → Keeps P (or_drop B p m)
  unfolding or_drop
  or_drop-Keeps p m keep w h = elim (Result-cases (m w).0) [
    | inl (a, e) ↦ rw (e, or_drop) (keep w h)
    | inr (x, e) ↦ rw (e, or_drop) (k.drop_process p _ (keep w h))
  ]

  start-Keeps : (vm_id : String) (spec : VmSpec) → Keeps P (start B vm_id spec)
  unfolding start
  start-Keeps vm_id spec w h =
      resume-Keeps P (B.prepare vm_id spec w).0 _ _ (k.prepare vm_id spec w h) λ _ w₁ h₁.
        resume-Keeps P (B.spawn vm_id w₁).0 _ _ (k.spawn vm_id w₁ h₁)
          λ s w₂ h₂. or_drop-Keeps s.1 _ (bring_up-Keeps vm_id spec s.0 s.1) w₂ h₂

  record_vm-Keeps :
      (vm_id : String) (m : VmManager B) (p : Result (VmHandle B) VmError × B.World)
      → P p.1
      → P (record_vm B vm_id m p).1.world
  unfolding record_vm
  record_vm-Keeps vm_id m (err e, w) h = h
  record_vm-Keeps vm_id m (ok handle, w) h = h

  handle_delete-Keeps :
      (vm_id : String) (m : VmManager B) → P m.world → P (handle_delete B vm_id m).1.world
  unfolding handle_delete tear_down
  handle_delete-Keeps vm_id m h = elim (Option-cases (get vm_id m.vms)) [
    | inl e ↦ rw (e, handle_delete) h
    | inr (v, e) ↦
        rw (e, handle_delete)
          (k.drop_process v.process _ (
            k.cleanup v.process _
              (k.kill v.process _ (k.delete v.client _ (k.shutdown v.client _ h)))))
  ]

  pub handle-Keeps :
      (vm_id : String) (payload : CommandPayload) (m : VmManager B)
      → P m.world
      → P (handle B vm_id payload m).1.world
  unfolding handle handle_create
  handle-Keeps vm_id (CommandPayload.create spec) m h =
      record_vm-Keeps vm_id m (start B vm_id spec m.world) (start-Keeps vm_id spec m.world h)
  handle-Keeps vm_id (CommandPayload.delete id) m h = handle_delete-Keeps id m h
  handle-Keeps vm_id CommandPayload.list m h = h
  handle-Keeps vm_id CommandPayload.get_worker_status m h = h

  -- A predicate that every method of the backend keeps holds after any sequence of messages.
  pub run-Keeps :
      (msgs : List (String × CommandPayload)) (m : VmManager B) → P m.world → P (run B msgs m).world
  unfolding run
  run-Keeps [] m h = h
  run-Keeps ((vm_id, payload) ∷ rest) m h = run-Keeps rest _ (handle-Keeps vm_id payload m h)
