-- ===== src/Worker/Manager/Fleet.antt =====
-- The VM manager as a fleet: which VM runs which spec, and nothing of order, backend or processes.
use procurator.Prelude.{
  ◌%◌, ◌^◌, String, ◌≡◌, refl, inl, inr, true, false, Option, none, some, List, [], ◌∷◌, map, arith,
  eq_iff, str_eq, if◌then◌else◌, length, retain, All, length-map, Result, ok, err,
}
use mathlib.Core.Option
use procurator.Prelude.HashMap.{HashMap, get, NodupKeys, remove-NodupKeys}
use procurator.Worker.Dto.{
  VmError, not_found, VmSpec, VmInfo, WorkerInfo, CommandPayload, CommandResponse, is_drifted,
}
use procurator.Worker.Vmm.{VmmBackend}
use procurator.Worker.Manager.{
  VmManager, VmHandle, handle_delete, handle_list, handle_get_worker_status, is_running,
  build_vm_info, handle, run, new,
}
use procurator.Worker.Manager.Create.{
  handle_create_atomic, handle_create-NodupKeys, handle_delete_lem,
}

-- The abstract view.
abbrev pub Fleet : Type 0
Fleet = String → Option VmSpec

abbrev pub Reply : Type 0
Reply = Result CommandResponse VmError

-- The first entry of a reply that is about this id.
abbrev pub find : String → List VmInfo → Option VmInfo
find id [] = none
find id (i ∷ infos) = if str_eq i.id id then some i else find id infos

-- No id stands twice.
abbrev pub NodupIds : List VmInfo → Type 0
NodupIds [] = Unit
NodupIds (i ∷ infos) = (find i.id infos ≡ none) × NodupIds infos

-- A reply to a list reports each VM once, under its id, with the hash that it should run, and none
-- as drifted.
pub record Lists (f : Fleet) (infos : List VmInfo) : Type 0 where
  pub reported :
      (id : String)
      → Option.map (λ (i : VmInfo). i.desired_hash) (find id infos)
        ≡ Option.map (λ (s : VmSpec). s.toplevel) (f id)
  pub once : NodupIds infos
  pub steady :
      All (λ (i : VmInfo). is_drifted i.status i.desired_hash i.observed_hash ≡ false) infos

-- What a worker promises for each command.
pub data FleetStep (f : Fleet) : CommandPayload → Reply → Fleet → Type 0 where
  created :
      {spec : VmSpec} {g : Fleet} (id : String)
      → ((j : String) → g j ≡ (if str_eq id j then some spec else f j))
      → FleetStep f (CommandPayload.create spec) (ok (CommandResponse.vm_id id)) g
  create_failed :
      {spec : VmSpec} {g : Fleet} (e : VmError)
      → ((j : String) → g j ≡ f j)
      → FleetStep f (CommandPayload.create spec) (err e) g
  deleted :
      {g : Fleet} (id : String) (spec : VmSpec)
      → f id ≡ some spec
      → ((j : String) → g j ≡ (if str_eq id j then none else f j))
      → FleetStep f (CommandPayload.delete id) (ok CommandResponse.unit) g
  delete_missing :
      (id : String) → f id ≡ none → FleetStep f (CommandPayload.delete id) (err (not_found id)) f
  listed :
      (infos : List VmInfo)
      → Lists f infos
      → FleetStep f CommandPayload.list (ok (CommandResponse.vm_list infos)) f
  reported :
      (info : WorkerInfo) (infos : List VmInfo)
      → info.healthy ≡ true
      → Lists f infos
      → info.running_vms ≡ length infos % 2 ^ 32
      → FleetStep f CommandPayload.get_worker_status (ok (CommandResponse.worker_info info)) f

-- A sequence of commands, each with some reply.
pub data FleetRun : Fleet → List CommandPayload → Fleet → Type 0 where
  done : {f : Fleet} → FleetRun f [] f
  next :
      {payload : CommandPayload} {rest : List CommandPayload} {f g h : Fleet} (reply : Reply)
      → FleetStep f payload reply g
      → FleetRun g rest h
      → FleetRun f (payload ∷ rest) h

module _ (B : VmmBackend) where
  abbrev pub view : VmManager B → Fleet
  view m id = Option.map (λ (h : VmHandle B). h.spec) (get id m.vms)

  find-infos :
      (w id : String) (vms : HashMap (VmHandle B))
      → Option.map
          (λ (i : VmInfo). i.desired_hash)
          (find id (map (λ (e : String × VmHandle B). build_vm_info B w e.0 e.1) vms))
        ≡ Option.map
            (λ (s : VmSpec). s.toplevel)
            (Option.map (λ (h : VmHandle B). h.spec) (get id vms))
  unfolding get build_vm_info
  find-infos w id [] = refl
  find-infos w id ((j, h) ∷ vms) = ground (arith, find-infos w id vms)

  steady-infos :
      (w : String) (vms : HashMap (VmHandle B))
      → All
          (λ (i : VmInfo). is_drifted i.status i.desired_hash i.observed_hash ≡ false)
          (map (λ (e : String × VmHandle B). build_vm_info B w e.0 e.1) vms)
  unfolding build_vm_info is_drifted
  steady-infos w [] = tt
  steady-infos w ((j, h) ∷ vms) =
      (ground (arith, eq_iff h.spec.toplevel h.spec.toplevel), steady-infos w vms)

  handle_create-FleetStep :
      (vm_id : String) (spec : VmSpec) (m : VmManager B)
      → let r = handle B vm_id (CommandPayload.create spec) m in
        FleetStep (view m) (CommandPayload.create spec) r.0 (view r.1)
  unfolding handle
  handle_create-FleetStep vm_id spec m = elim (handle_create_atomic B vm_id spec m) [
    | inl (e, p, q) ↦ rw p (create_failed e λ j. rw q)
    | inr (p, (h, is_spec, _, _, at)) ↦ rw p (created vm_id λ j. ground (arith, at j))
  ]

  handle_delete-FleetStep :
      (vm_id id : String) (m : VmManager B)
      → let r = handle B vm_id (CommandPayload.delete id) m in
        FleetStep (view m) (CommandPayload.delete id) r.0 (view r.1)
  unfolding handle
  handle_delete-FleetStep vm_id id m = elim (handle_delete_lem B id m) [
    | inl (absent, p, q) ↦ rw (p, q) (delete_missing id (rw absent))
    | inr (h, at, p, after, _) ↦ rw p (deleted id h.spec (rw at) λ j. ground (arith, after j))
  ]

  find_absent :
      (w id : String) (vms : HashMap (VmHandle B))
      → get id vms ≡ none
      → find id (map (λ (e : String × VmHandle B). build_vm_info B w e.0 e.1) vms) ≡ none
  unfolding get build_vm_info
  find_absent w id [] h = refl
  find_absent w id ((j, v) ∷ vms) h = ground (arith, find_absent w id vms)

  once-infos :
      (w : String) (vms : HashMap (VmHandle B))
      → NodupKeys vms
      → NodupIds (map (λ (e : String × VmHandle B). build_vm_info B w e.0 e.1) vms)
  unfolding build_vm_info
  once-infos w [] d = tt
  once-infos w ((j, v) ∷ vms) d = (find_absent w j vms d.0, once-infos w vms d.1)

  handle_list-Lists : (m : VmManager B) → NodupKeys m.vms → Lists (view m) (handle_list B m)
  unfolding handle_list
  handle_list-Lists m d = record {
    reported = λ id. find-infos m.worker_id id m.vms;
    once = once-infos m.worker_id m.vms d;
    steady = steady-infos m.worker_id m.vms;
  }

  -- Every VM in the table is running.
  all_running : (vms : HashMap (VmHandle B)) → length (retain (is_running B) vms) ≡ length vms
  unfolding retain is_running
  all_running [] = refl
  all_running ((j, v) ∷ vms) = ground (arith, all_running vms)

  status-FleetStep :
      (m : VmManager B)
      → NodupKeys m.vms
      → FleetStep
          (view m)
          CommandPayload.get_worker_status
          (ok (CommandResponse.worker_info (handle_get_worker_status B m)))
          (view m)
  unfolding handle_get_worker_status handle_list
  status-FleetStep m d =
      reported _ (handle_list B m) refl (handle_list-Lists m d)
        (rw (all_running m.vms, length-map _ m.vms))

  -- While no id stands twice in the table, each command, on every branch, does what the abstract
  -- fleet promises: the reply fits the command, a create adds its VM or changes nothing, a delete
  -- takes its VM away or reports that it is not found, and a list and a status report the fleet.
  pub handle-FleetStep :
      (vm_id : String) (payload : CommandPayload) (m : VmManager B)
      → NodupKeys m.vms
      → let r = handle B vm_id payload m in FleetStep (view m) payload r.0 (view r.1)
  unfolding handle
  handle-FleetStep vm_id (CommandPayload.create spec) m d = handle_create-FleetStep vm_id spec m
  handle-FleetStep vm_id (CommandPayload.delete id) m d = handle_delete-FleetStep vm_id id m
  handle-FleetStep vm_id CommandPayload.list m d = listed _ (handle_list-Lists m d)
  handle-FleetStep vm_id CommandPayload.get_worker_status m d = status-FleetStep m d

  handle-NodupKeys :
      (vm_id : String) (payload : CommandPayload) (m : VmManager B)
      → NodupKeys m.vms
      → NodupKeys (handle B vm_id payload m).1.vms
  unfolding handle handle_delete
  handle-NodupKeys vm_id (CommandPayload.create spec) m d = handle_create-NodupKeys B vm_id spec m d
  handle-NodupKeys vm_id (CommandPayload.delete id) m d = ground (arith, remove-NodupKeys id m.vms)
  handle-NodupKeys vm_id CommandPayload.list m d = d
  handle-NodupKeys vm_id CommandPayload.get_worker_status m d = d

  run-FleetRun :
      (msgs : List (String × CommandPayload)) (m : VmManager B)
      → NodupKeys m.vms
      → FleetRun (view m) (map (λ (c : String × CommandPayload). c.1) msgs) (view (run B msgs m))
  unfolding run
  run-FleetRun [] m d = done
  run-FleetRun ((vm_id, payload) ∷ rest) m d =
      next _ (handle-FleetStep vm_id payload m d)
        (run-FleetRun rest _ (handle-NodupKeys vm_id payload m d))

  -- A worker that starts with no VM goes through the abstract fleet's steps for whatever messages
  -- it receives, on any backend.
  pub run-new-FleetRun :
      (worker_id : String) (world : B.World) (msgs : List (String × CommandPayload))
      → FleetRun
          (λ _. none)
          (map (λ (c : String × CommandPayload). c.1) msgs)
          (view (run B msgs (new B worker_id world)))
  unfolding new get
  run-new-FleetRun worker_id world msgs = run-FleetRun msgs (new B worker_id world) tt
