-- ===== src/RepoOutils/Logs/Summary.antt =====
-- logs.rs: the summary of a log.
use procurator.Prelude.{
  ℕ, zero, suc, ◌+◌, ◌-◌, ◌≤◌, ◌≡◌, refl, inl, inr, Bool, false, Option, none, some, List, [], ◌∷◌,
  arith, ◌==◌, if◌then◌else◌, Option-cases, length, count, count-append,
}
use mathlib.Core.Option
use procurator.RepoOutils.Logs.{
  LogEntry, ActiveStep, FinishedStep, entry_id, new_step, complete, Steps, find_step, insert_step,
  remove_step, update_last, State, default_state, handle_start, finish, handle_stop, handle_msg,
  push_message, process_entry, process_entries,
}
use procurator.RepoOutils.Logs.Timeline.{Timeline, build_timeline}
use procurator.RepoOutils.Logs.Timeline.Ends.{build_timeline-some}

pub record Summary : Type 0 where
  pub total_steps : ℕ
  pub started_at : ℕ
  pub completed_at : ℕ
  pub timeline : Timeline

-- The fuel is that of the timeline.
unfoldable pub into_output : ℕ → ℕ → ℕ → State → Option Summary
into_output fuel started_at completed_at st =
    Option.map
      (λ timeline. record {
        total_steps = length st.finished_steps;
        started_at = started_at;
        completed_at = completed_at;
        timeline = timeline;
      })
      (build_timeline fuel st.finished_steps)

-- `self.started_at.duration_since(self.completed_at).unwrap_or_default()`: an earlier time has no
-- duration since a later one, and the default is zero.
unfoldable pub duration : Summary → ℕ
duration s = s.started_at - s.completed_at

-- How often an id is started.
unfoldable pub starts_id : ℕ → LogEntry × ℕ → Bool
starts_id id (LogEntry.start e, t) = e.id == id
starts_id id (LogEntry.stop i, t) = false
starts_id id (LogEntry.msg m, t) = false
starts_id id (LogEntry.result r, t) = false

-- The steps of an id, finished and active.
abbrev finished : ℕ → State → ℕ
finished id st = count (λ (s : FinishedStep). s.id == id) st.finished_steps

abbrev keys : ℕ → Steps → ℕ
keys id = count (λ (e : ℕ × ActiveStep). e.0 == id)

keys-insert_step :
    (id j : ℕ) (s : ActiveStep) (steps : Steps)
    → keys id (insert_step j s steps) ≤ (if j == id then 1 else 0) + keys id steps
unfolding count insert_step
keys-insert_step id j s [] = ground arith
keys-insert_step id j s ((k, t) ∷ steps) = ground (arith, keys-insert_step id j s steps)

keys-remove_step-le : (id j : ℕ) (steps : Steps) → keys id (remove_step j steps) ≤ keys id steps
unfolding count remove_step
keys-remove_step-le id j [] = omega arith
keys-remove_step-le id j ((k, t) ∷ steps) = ground (arith, keys-remove_step-le id j steps)

keys-remove_step :
    (id j : ℕ) (s : ActiveStep) (steps : Steps)
    → find_step j steps ≡ some s
    → (if j == id then 1 else 0) + keys id (remove_step j steps) ≤ keys id steps
unfolding count remove_step find_step
keys-remove_step id j s [] h = absurd (cc h)
keys-remove_step id j s ((k, t) ∷ steps) h =
    ground (arith, keys-remove_step id j s steps, keys-remove_step-le id j steps)

keys-update_last :
    (id : ℕ) (f : ActiveStep → ActiveStep) (steps : Steps)
    → keys id (update_last f steps) ≡ keys id steps
unfolding count update_last
keys-update_last id f [] = refl
keys-update_last id f ((k, t) ∷ []) = refl
keys-update_last id f ((k, t) ∷ (x ∷ steps)) = omega (arith, keys-update_last id f (x ∷ steps))

entry_id-eq : (n j : ℕ) → entry_id n ≡ some j → n ≡ j
unfolding entry_id
entry_id-eq zero j h = absurd (cc h)
entry_id-eq (suc n) j h = cc h

abbrev steps_of : ℕ → State → ℕ
steps_of id st = finished id st + keys id st.active_steps

finish-steps :
    (id j t : ℕ) (o : Option ActiveStep) (st : State)
    → find_step j st.active_steps ≡ o
    → steps_of id (finish j t o st) ≤ steps_of id st
unfolding finish complete count
finish-steps id j t none st h = omega arith
finish-steps id j t (some s) st h =
    let added =
      count-append (λ (x : FinishedStep). x.id == id) st.finished_steps (complete j t s ∷ []) in
    ground (arith, added, keys-remove_step id j s st.active_steps)

-- An entry adds a step to an id only if it starts_id it.
process_entry-steps :
    (id : ℕ) (e : LogEntry) (t : ℕ) (st : State)
    → steps_of id (process_entry e t st) ≤ (if starts_id id (e, t) then 1 else 0) + steps_of id st
unfolding process_entry starts_id handle_start handle_stop handle_msg
process_entry-steps id (LogEntry.start e) t st = elim (Option-cases (entry_id e.id)) [
  | inl q ↦ ground arith
  | inr (j, q) ↦
      let same = entry_id-eq e.id j q in
      ground (arith, keys-insert_step id j (new_step e t) st.active_steps)
]
process_entry-steps id (LogEntry.stop i) t st = elim (Option-cases (entry_id i)) [
  | inl q ↦ ground arith
  | inr (j, q) ↦ ground (arith, finish-steps id j t (find_step j st.active_steps) st refl)
]
process_entry-steps id (LogEntry.msg m) t st =
    omega (arith, keys-update_last id (push_message m t) st.active_steps)
process_entry-steps id (LogEntry.result r) t st = omega arith

process_entries-steps :
    (id : ℕ) (es : List (LogEntry × ℕ)) (st : State)
    → steps_of id (process_entries es st) ≤ count (starts_id id) es + steps_of id st
unfolding process_entries count
process_entries-steps id [] st = omega arith
process_entries-steps id ((e, t) ∷ es) st =
    omega (arith, process_entries-steps id es (process_entry e t st), process_entry-steps id e t st)

-- A log in which no id is started twice has a summary: the recursion over its timeline ends within as
-- many levels as there are finished steps. The summary counts them, and its duration is zero if the
-- process did not end before it started.
pub into_output-process_entries :
    (es : List (LogEntry × ℕ)) (started_at completed_at : ℕ)
    → ((id : ℕ) → count (starts_id id) es ≤ 1)
    → started_at ≤ completed_at
    → let st = process_entries es default_state in
      (s : Summary) × (into_output (length st.finished_steps) started_at completed_at st ≡ some s)
      × (s.total_steps ≡ length st.finished_steps)
      × (duration s ≡ 0)
unfolding into_output duration count
into_output-process_entries es started_at completed_at once ordered =
    let st = process_entries es default_state in
    let (ts, e) =
      build_timeline-some st.finished_steps (λ id. finished-le-one id) (length st.finished_steps)
        (omega arith) in
    (
      record {
        total_steps = length st.finished_steps;
        started_at = started_at;
        completed_at = completed_at;
        timeline = ts;
      },
      rw e refl,
      refl,
      omega arith,
    )
  where
    finished-le-one : (id : ℕ) → finished id (process_entries es default_state) ≤ 1
    finished-le-one id = omega (arith, process_entries-steps id es default_state, once id)
