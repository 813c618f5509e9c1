-- ===== src/RepoOutils/Logs/Steps.antt =====
-- logs.rs: what becomes of a step, from its start to its stop.
use procurator.Prelude.{
  ℕ, zero, suc, ◌<◌, ◌≡◌, refl, ap, ◌∙◌, ◌≢◌, inl, inr, none, some, List, [], ◌∷◌, ◌++◌, arith,
  ◌==◌, if◌then◌else◌, Bool-cases, All,
}
use procurator.RepoOutils.Logs.{
  StartEntry, MsgEntry, LogEntry, Message, ActiveStep, FinishedStep, entry_id, new_step, complete,
  Steps, find_step, insert_step, remove_step, update_last, State, handle_start, finish, handle_stop,
  push_message, handle_msg, process_entry, process_entries,
}

-- An entry that neither starts nor stops the step.
abbrev pub LeavesAlone : ℕ → LogEntry × ℕ → Type 0
LeavesAlone id (LogEntry.start e, t) = e.id ≢ id
LeavesAlone id (LogEntry.stop i, t) = i ≢ id
LeavesAlone id (LogEntry.msg m, t) = Unit
LeavesAlone id (LogEntry.result r, t) = Unit

-- The step is active, and but for its messages it is the given one.
abbrev Active : ℕ → ActiveStep → Steps → Type 0
Active id s steps = (ms : List Message) × (find_step id steps ≡ some (record s { messages = ms }))

find_step-insert_step :
    (id j : ℕ) (s : ActiveStep) (steps : Steps)
    → find_step j (insert_step id s steps) ≡ (if id == j then some s else find_step j steps)
unfolding find_step insert_step
find_step-insert_step id j s [] = ground arith
find_step-insert_step id j s ((k, t) ∷ steps) = ground (arith, find_step-insert_step id j s steps)

find_step-remove_step :
    (id j : ℕ) (steps : Steps)
    → find_step j (remove_step id steps) ≡ (if id == j then none else find_step j steps)
unfolding find_step remove_step
find_step-remove_step id j [] = ground arith
find_step-remove_step id j ((k, t) ∷ steps) = ground (arith, find_step-remove_step id j steps)

update_last-Active :
    (id : ℕ) (s : ActiveStep) (m : MsgEntry) (time : ℕ) (steps : Steps)
    → Active id s steps
    → Active id s (update_last (push_message m time) steps)
unfolding update_last find_step push_message
update_last-Active id s m time [] a = a
update_last-Active id s m time ((k, t) ∷ []) (ms, e) = elim (Bool-cases (k == id)) [
  | inl q ↦ (ms ++ (record { entry = m; timestamp = time } ∷ []), ground arith)
  | inr q ↦ (ms, ground arith)
]
update_last-Active id s m time ((k, t) ∷ (u ∷ steps)) (ms, e) = elim (Bool-cases (k == id)) [
  | inl q ↦ (ms, ground arith)
  | inr q ↦ let x = update_last-Active id s m time (u ∷ steps) (ms, ground arith) in (x.0, rw q x.1)
]

process_entry-Active :
    (id : ℕ) (s : ActiveStep) (e : LogEntry) (time : ℕ) (st : State)
    → LeavesAlone id (e, time)
    → Active id s st.active_steps
    → Active id s (process_entry e time st).active_steps
unfolding process_entry handle_start handle_stop handle_msg finish entry_id
process_entry-Active id s (LogEntry.start e) time st ne (ms, a) =
    (ms, ground (arith, find_step-insert_step e.id id (new_step e time) st.active_steps))
process_entry-Active id s (LogEntry.stop i) time st ne (ms, a) =
    (ms, ground (arith, find_step-remove_step i id st.active_steps))
process_entry-Active id s (LogEntry.msg m) time st ne a =
    update_last-Active id s m time st.active_steps a
process_entry-Active id s (LogEntry.result r) time st ne a = a

process_entries-Active :
    (id : ℕ) (s : ActiveStep) (es : List (LogEntry × ℕ)) (st : State)
    → All (LeavesAlone id) es
    → Active id s st.active_steps
    → Active id s (process_entries es st).active_steps
unfolding process_entries
process_entries-Active id s [] st h a = a
process_entries-Active id s ((e, time) ∷ es) st h a =
    process_entries-Active id s es (process_entry e time st) h.1
      (process_entry-Active id s e time st h.0 a)

entry_id_lem : (n : ℕ) → 0 < n → entry_id n ≡ some n
unfolding entry_id
entry_id_lem zero h = absurd (omega arith)
entry_id_lem (suc n) h = refl

start-Active :
    (e : StartEntry) (time : ℕ) (st : State)
    → 0 < e.id
    → Active e.id (new_step e time) (process_entry (LogEntry.start e) time st).active_steps
unfolding process_entry handle_start new_step
start-Active e time st pos = (
  [],
  ground (
    arith,
    entry_id_lem e.id pos,
    find_step-insert_step e.id e.id (new_step e time) st.active_steps,
  ),
)

process_entry-stop :
    (id time : ℕ) (s : ActiveStep) (st : State)
    → 0 < id
    → find_step id st.active_steps ≡ some s
    → process_entry (LogEntry.stop id) time st ≡ finish id time (some s) st
unfolding process_entry handle_stop entry_id
process_entry-stop zero time s st pos at = absurd (omega arith)
process_entry-stop (suc n) time s st pos at = ap (λ o. finish (suc n) time o st) at

-- The finished step of a start and its stop.
abbrev pub finished : StartEntry → ℕ → ℕ → List Message → FinishedStep
finished e started_at completed_at messages = record {
  id = e.id;
  text = e.text;
  level = e.level;
  log_type = e.log_type;
  started_at = started_at;
  parent = if e.parent == 0 then none else some e.parent;
  messages = messages;
  completed_at = completed_at;
}

entry_id-none : (n : ℕ) → entry_id n ≡ (if n == 0 then none else some n)
unfolding entry_id
entry_id-none zero = refl
entry_id-none (suc n) = ground arith

complete-new_step :
    (e : StartEntry) (t1 t2 : ℕ) (ms : List Message)
    → complete e.id t2 (record (new_step e t1) { messages = ms }) ≡ finished e t1 t2 ms
unfolding complete new_step
complete-new_step e t1 t2 ms =
    ap (λ p. record (finished e t1 t2 ms) { parent = p }) (entry_id-none e.parent)

finish_lem :
    (id time : ℕ) (s : ActiveStep) (st : State)
    → let after = finish id time (some s) st in
      (find_step id after.active_steps ≡ none)
      × (after.finished_steps ≡ st.finished_steps ++ (complete id time s ∷ []))
unfolding finish
finish_lem id time s st = (ground (arith, find_step-remove_step id id st.active_steps), refl)

-- A step with an id that is not zero, started and later stopped with no other start or stop of its
-- id between, is finished then, behind all that is finished by then: it has the id, text, level,
-- type and parent of its start (no parent for zero), the times of its start and its stop, and some
-- messages, and it is no longer active.
pub start_stop_lem :
    (e : StartEntry) (es : List (LogEntry × ℕ)) (t1 t2 : ℕ) (st : State)
    → 0 < e.id
    → All (LeavesAlone e.id) es
    → let before = process_entries es (process_entry (LogEntry.start e) t1 st) in
      let after = process_entry (LogEntry.stop e.id) t2 before in
      (find_step e.id after.active_steps ≡ none)
      × ((ms : List Message) × (after.finished_steps
            ≡ before.finished_steps ++ (finished e t1 t2 ms ∷ [])))
start_stop_lem e es t1 t2 st pos h =
    let before = process_entries es (process_entry (LogEntry.start e) t1 st) in
    let a =
      process_entries-Active e.id (new_step e t1) es (process_entry (LogEntry.start e) t1 st) h
        (start-Active e t1 st pos) in
    let stopped = record (new_step e t1) { messages = a.0 } in
    let r = finish_lem e.id t2 stopped before in
    rw (process_entry-stop e.id t2 stopped before pos a.1) (
      r.0,
      (a.0, r.1 ∙ ap (λ s. before.finished_steps ++ (s ∷ [])) (complete-new_step e t1 t2 a.0)),
    )
