-- ===== src/Worker/Manager/Create.antt =====
-- vm_manager.rs, `handle_create` and `handle_delete`: what each does to the VM table.
use procurator.Prelude.{
  String, ◌≡◌, Option, refl, ◌⊎◌, inl, inr, none, some, arith, str_eq, if◌then◌else◌, Option-cases,
  Result, ok, err, resume_rule,
}
use procurator.Prelude.HashMap.{get, NodupKeys, get-insert, get-remove, insert-NodupKeys}
use procurator.Worker.Dto.{VmError, not_found, VmSpec, running}
use procurator.Worker.Vmm.{VmmBackend}
use procurator.Worker.Manager.{
  VmManager, VmHandle, start, bring_up, liveness, or_drop, record_vm, handle_create, handle_delete,
  tear_down,
}

module _ (B : VmmBackend) where
  -- What the last look at the process says: it has not exited, or the look itself failed.
  abbrev pub StillRuns : Result (Option B.ExitStatus) VmError → Type 0
  StillRuns (ok (some exit_status)) = ⊥
  StillRuns (ok none) = Unit
  StillRuns (err e) = Unit

  -- From the spawned process on, with no error ignored: the VM was created with the configuration
  -- of the id and the spec, booted and given its network, and then still ran.
  abbrev BroughtUp : String → VmSpec → B.Client → B.Process → B.World → B.World → Type 0
  BroughtUp vm_id spec client process w after =
      let created = B.create client (B.build_config vm_id spec w) w in
      let booted = B.boot client created.1 in
      let attached = B.attach_network vm_id booted.1 in
      let looked = B.try_wait process (B.sleep 500 attached.1) in
      (created.0 ≡ ok tt)
      × (booted.0 ≡ ok tt)
      × (attached.0 ≡ ok tt)
      × StillRuns looked.0
      × (after ≡ looked.1)

  -- From the start on: the host was prepared and the process spawned.
  abbrev pub CameUp : String → VmSpec → B.World → B.Client → B.Process → B.World → Type 0
  CameUp vm_id spec w client process after =
      let prepared = B.prepare vm_id spec w in
      let spawned = B.spawn vm_id prepared.1 in
      (prepared.0 ≡ ok tt)
      × ((socket : String) × (spawned.0 ≡ ok (client, process, socket)))
      × BroughtUp vm_id spec client process spawned.1 after

  -- What a handle that `bring_up` and `start` return says of its VM, and what was done for it.
  abbrev Up :
      VmSpec
      → B.Client
      → B.Process
      → B.World
      → String
      → Result (VmHandle B) VmError
      → B.World
      → Type 0
  Up spec client process w vm_id (ok h) after =
      (h ≡ record { spec = spec; client = client; process = process; status = running })
      × BroughtUp vm_id spec client process w after
  Up spec client process w vm_id (err e) after = Unit

  abbrev Started : String → VmSpec → B.World → Result (VmHandle B) VmError → B.World → Type 0
  Started vm_id spec w (ok h) after =
      (h.spec ≡ spec) × (h.status ≡ running) × CameUp vm_id spec w h.client h.process after
  Started vm_id spec w (err e) after = Unit

  bring_up-Up :
      (vm_id : String) (spec : VmSpec) (c : B.Client) (p : B.Process) (w : B.World)
      → let r = bring_up B vm_id spec c p w in Up spec c p w vm_id r.0 r.1
  unfolding bring_up liveness
  bring_up-Up vm_id spec c p w = ground arith

  or_drop-Up :
      (vm_id : String) (spec : VmSpec) (c : B.Client) (p : B.Process) (w : B.World)
      → let r = or_drop B p (bring_up B vm_id spec c p) w in Up spec c p w vm_id r.0 r.1
  unfolding or_drop
  or_drop-Up vm_id spec c p w = let h = bring_up-Up vm_id spec c p w in ground arith

  start-Started :
      (vm_id : String) (spec : VmSpec) (w : B.World)
      → let r = start B vm_id spec w in Started vm_id spec w r.0 r.1
  unfolding start
  start-Started vm_id spec w =
      let w1 = (B.prepare vm_id spec w).1 in
      let w2 = (B.spawn vm_id w1).1 in
      resume_rule (Started vm_id spec w) (B.prepare vm_id spec w).0 _ w1 (λ e q. tt)
        λ _ prepared.
          resume_rule (Started vm_id spec w) (B.spawn vm_id w1).0 _ w2 (λ e q. tt)
            λ s spawned.
              started vm_id spec w s.0 s.1 s.2 prepared spawned _ _
                (or_drop-Up vm_id spec s.0 s.1 w2)
    where
      started :
          (vm_id : String) (spec : VmSpec) (w : B.World) (c : B.Client) (p : B.Process)
          (socket : String)
          → let prepared = B.prepare vm_id spec w in
            let spawned = B.spawn vm_id prepared.1 in
            prepared.0 ≡ ok tt
            → spawned.0 ≡ ok (c, p, socket)
            → (r : Result (VmHandle B) VmError) (after : B.World)
            → Up spec c p spawned.1 vm_id r after
            → Started vm_id spec w r after
      started vm_id spec w c p socket e1 e2 (err e) after up = tt
      started vm_id spec w c p socket e1 e2 (ok h) after (same, up) =
          rw same (refl, refl, (e1, (socket, e2), up))

  -- The table has a running VM with the spec of the request under the id, for which every step of
  -- the bring-up gave no error, and is else as before.
  abbrev pub Created : String → VmSpec → VmManager B → VmManager B → Type 0
  Created vm_id spec m m' =
      (h : VmHandle B) × (h.spec ≡ spec)
      × (h.status ≡ running)
      × CameUp vm_id spec m.world h.client h.process m'.world
      × ((j : String) → get j m'.vms ≡ (if str_eq vm_id j then some h else get j m.vms))

  recorded :
      (vm_id : String) (spec : VmSpec) (m : VmManager B) (p : Result (VmHandle B) VmError × B.World)
      → Started vm_id spec m.world p.0 p.1
      → let r = record_vm B vm_id m p in
        ((e : VmError) × (r.0 ≡ err e) × (r.1.vms ≡ m.vms))
        ⊎ ((r.0 ≡ ok vm_id) × Created vm_id spec m r.1)
  unfolding record_vm
  recorded vm_id spec m (err e, w) h = inl (e, refl, refl)
  recorded vm_id spec m (ok handle, w) (is_spec, runs, up) =
      inr (refl, (handle, is_spec, runs, up, λ j. get-insert vm_id j handle m.vms))

  record_vm-NodupKeys :
      (vm_id : String) (m : VmManager B) (p : Result (VmHandle B) VmError × B.World)
      → NodupKeys m.vms
      → NodupKeys (record_vm B vm_id m p).1.vms
  unfolding record_vm
  record_vm-NodupKeys vm_id m (err e, w) d = d
  record_vm-NodupKeys vm_id m (ok handle, w) d = insert-NodupKeys vm_id handle m.vms d

  -- A create either fails and leaves the whole VM table as it was, or returns the id that it was
  -- given and enters a running VM with the requested spec under that id, and under no other. It does
  -- so only when the preparation, the spawn, the creation of the VM with its configuration, the boot
  -- and the attachment of the network, run in this order, all gave no error, and the process was
  -- then not seen to have exited.
  pub handle_create_atomic :
      (vm_id : String) (spec : VmSpec) (m : VmManager B)
      → let r = handle_create B vm_id spec m in
        ((e : VmError) × (r.0 ≡ err e) × (r.1.vms ≡ m.vms))
        ⊎ ((r.0 ≡ ok vm_id) × Created vm_id spec m r.1)
  unfolding handle_create
  handle_create_atomic vm_id spec m =
      recorded vm_id spec m (start B vm_id spec m.world) (start-Started vm_id spec m.world)

  pub handle_create-NodupKeys :
      (vm_id : String) (spec : VmSpec) (m : VmManager B)
      → NodupKeys m.vms
      → NodupKeys (handle_create B vm_id spec m).1.vms
  unfolding handle_create
  handle_create-NodupKeys vm_id spec m d =
      record_vm-NodupKeys vm_id m (start B vm_id spec m.world) d

  -- A delete of an id that is not in the table reports that it is not found and does nothing. Any
  -- other succeeds, whatever the hypervisor answers: the VM is shut down, deleted, killed and
  -- cleaned up, in this order, its handle is dropped, its id is gone from the table, and all other
  -- VMs stay.
  pub handle_delete_lem :
      (vm_id : String) (m : VmManager B)
      → let r = handle_delete B vm_id m in
        ((get vm_id m.vms ≡ none) × (r.0 ≡ err (not_found vm_id)) × (r.1 ≡ m))
        ⊎ ((h : VmHandle B) × (get vm_id m.vms ≡ some h)
            × (r.0 ≡ ok tt)
            × ((j : String) → get j r.1.vms ≡ (if str_eq vm_id j then none else get j m.vms))
            × (let shut = (B.shutdown h.client m.world).1 in
                let deleted = (B.delete h.client shut).1 in
                let killed = (B.kill h.process deleted).1 in
                r.1.world ≡ B.drop_process h.process (B.cleanup h.process killed).1))
  unfolding handle_delete tear_down
  handle_delete_lem vm_id m = elim (Option-cases (get vm_id m.vms)) [
    | inl e ↦ inl (e, ground arith, ground arith)
    | inr (h, e) ↦
        inr (h, e, ground arith, (λ j. ground (arith, get-remove vm_id j m.vms)), ground arith)
  ]
