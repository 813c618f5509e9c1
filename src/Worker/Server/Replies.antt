-- ===== src/Worker/Server/Replies.antt =====
-- server.rs: what a client of the RPC interface gets back.
use procurator.Prelude.{
  String, ◌≡◌, refl, ap, ◌∙◌, List, ◌++◌, Result, ◌⊎◌, inl, inr, false, [], ◌∷◌, map, arith, eq_iff,
  ok, err, map_err, Result-cases,
}
use procurator.Prelude.HashMap.{HashMap}
use procurator.Worker.Dto.{display, VmSpec, default_metrics, as_str-eq-running, is_drifted}
use procurator.Worker.Vmm.{VmmBackend}
use procurator.Worker.Manager.{
  VmManager, VmHandle, handle, handle_create, handle_delete, handle_list, build_vm_info,
}
use procurator.Worker.Server.{
  up, down, CapnpError, CreateVmParams, VmStatusWire, read_domains, read_spec, wire, read, list_vms,
  create_vm, delete_vm,
}

-- Every field reads, and the spec has what was read.
abbrev pub Reads : CreateVmParams → VmSpec → Type 0
Reads p spec =
    (p.domains ≡ ok (map ok spec.network_allowed_domains))
    × (p.toplevel ≡ ok spec.toplevel)
    × (p.kernel_path ≡ ok spec.kernel_path)
    × (p.initrd_path ≡ ok spec.initrd_path)
    × (p.disk_image_path ≡ ok spec.disk_image_path)
    × (p.cmdline ≡ ok spec.cmdline)
    × (spec.cpu ≡ p.cpu)
    × (spec.memory_mb ≡ p.memory_mb)

-- A field does not read, with this error: the list of domains, one of them, or a text.
abbrev pub Unread : CreateVmParams → CapnpError → Type 0
Unread p e =
    (p.domains ≡ err e)
    ⊎ ((before : List String) × (after : List (Result String CapnpError)) × (p.domains
          ≡ ok (map ok before ++ (err e ∷ after))))
    ⊎ (p.toplevel ≡ err e)
    ⊎ (p.kernel_path ≡ err e)
    ⊎ (p.initrd_path ≡ err e)
    ⊎ (p.disk_image_path ≡ err e)
    ⊎ (p.cmdline ≡ err e)

read_domains-ok :
    (ds : List (Result String CapnpError)) (ss : List String)
    → read_domains ds ≡ ok ss
    → ds ≡ map ok ss
unfolding read_domains
read_domains-ok [] ss h = ground arith
read_domains-ok (ok d ∷ ds) ss h = elim (Result-cases (read_domains ds)) [
  | inl (rest, e) ↦ ground (arith, read_domains-ok ds rest e)
  | inr (x, e) ↦ absurd (ground arith)
]
read_domains-ok (err e ∷ ds) ss h = absurd (cc h)

read_domains-err :
    (ds : List (Result String CapnpError)) (e : CapnpError)
    → read_domains ds ≡ err e
    → (before : List String) × (after : List (Result String CapnpError)) × (ds
        ≡ map ok before ++ (err e ∷ after))
unfolding read_domains
read_domains-err [] e h = absurd (cc h)
read_domains-err (ok d ∷ ds) e h =
    let (before, after, q) = read_domains-err ds e (ground arith) in
    (d ∷ before, after, ap (λ r. ok d ∷ r) q)
read_domains-err (err x ∷ ds) e h = ([], ds, ground arith)

read_spec-Reads : (p : CreateVmParams) (spec : VmSpec) → read_spec p ≡ ok spec → Reads p spec
unfolding read_spec
read_spec-Reads p spec h = elim (Result-cases p.domains) [
  | inr (x, e) ↦ absurd (ground arith)
  | inl (ds, e) ↦ elim (Result-cases (read_domains ds)) [
    | inr (x, q) ↦ absurd (ground arith)
    | inl (ss, q) ↦ let r = read_domains-ok ds ss q in ground arith
  ]
]

read_spec-Unread : (p : CreateVmParams) (e : CapnpError) → read_spec p ≡ err e → Unread p e
unfolding read_spec
read_spec-Unread p x h = elim (Result-cases p.domains) [
  | inr (y, e) ↦ ground arith
  | inl (ds, e) ↦ elim (Result-cases (read_domains ds)) [
    | inr (y, q) ↦
        let same : y ≡ x = ground arith in
        let (before, after, r) = read_domains-err ds y q in
        inr (inl (before, after, e ∙ ap ok (r ∙ ap (λ z. map ok before ++ (err z ∷ after)) same)))
    | inl (ss, q) ↦ ground arith
  ]
]

module _ (B : VmmBackend) where
  -- A create of which the list of domains, one of the domains or a text does not read fails with
  -- that error and does not reach the manager. Any other gets just what the manager's create gives
  -- for the spec of the fields as they were read, each at its place, with errors by their messages.
  -- No reply is ever unexpected.
  pub create_vm_lem :
      (vm_id : String) (params : CreateVmParams) (m : VmManager B)
      → ((e : CapnpError) × Unread params e × (create_vm B vm_id params (up m) ≡ (err e, up m)))
        ⊎ ((spec : VmSpec) × Reads params spec
            × (create_vm B vm_id params (up m) ≡ (
              map_err display (handle_create B vm_id spec m).0,
              up (handle_create B vm_id spec m).1,
            )))
  unfolding create_vm handle
  create_vm_lem vm_id params m = elim (Result-cases (read_spec params)) [
    | inl (spec, e) ↦ inr (spec, read_spec-Reads params spec e, rw (e, create_vm) (ground arith))
    | inr (x, e) ↦ inl (x, read_spec-Unread params x e, rw (e, create_vm))
  ]

  -- The entry of a list for one VM: running, with the hash of its spec as the desired and the
  -- observed one, and not drifted.
  abbrev entry : String → String × VmHandle B → VmStatusWire
  entry worker_id (id, h) = record {
    id = id;
    worker_id = worker_id;
    desired_hash = h.spec.toplevel;
    observed_hash = h.spec.toplevel;
    status = "running";
    drifted = false;
    metrics = default_metrics;
  }

  wire-entry : (w id : String) (h : VmHandle B) → wire (build_vm_info B w id h) ≡ entry w (id, h)
  unfolding wire build_vm_info is_drifted
  wire-entry w id h =
      ground (arith, eq_iff h.spec.toplevel h.spec.toplevel, as_str-eq-running h.status)

  wires :
      (w : String) (vms : HashMap (VmHandle B))
      → map wire (map (λ (e : String × VmHandle B). build_vm_info B w e.0 e.1) vms)
        ≡ map (entry w) vms
  wires w [] = refl
  wires w ((id, h) ∷ vms) = rw (wire-entry w id h, wires w vms)

  -- A list over RPC is the manager's table, entry by entry, and the table stays.
  list_vms_lem : (m : VmManager B) → list_vms B (up m) ≡ (ok (map (entry m.worker_id) m.vms), up m)
  unfolding list_vms handle handle_list
  list_vms_lem m = rw (wires m.worker_id m.vms)

  -- When the manager's task has ended, every call that reaches it fails with that message.
  pub all_down :
      (read B down ≡ (err "VM manager is down", down))
      × (list_vms B down ≡ (err "VM manager is down", down))
      × ((id : String) → delete_vm B (ok id) down ≡ (err "VM manager is down", down))
      × ((vm_id : String) (params : CreateVmParams) (spec : VmSpec)
          → read_spec params ≡ ok spec
          → create_vm B vm_id params down ≡ (err "VM manager is down", down))
  unfolding read list_vms delete_vm create_vm display
  all_down = (refl, refl, (λ id. refl), λ vm_id params spec h. ground arith)

  -- A delete over RPC answers with the manager's result, its error by its message.
  pub delete_vm_lem :
      (id : String) (m : VmManager B)
      → delete_vm B (ok id) (up m)
        ≡ (map_err display (handle_delete B id m).0, up (handle_delete B id m).1)
  unfolding delete_vm handle
  delete_vm_lem id m = ground arith
