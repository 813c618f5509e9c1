-- ===== src/RepoOutils/Logs/Messages.antt =====
-- logs.rs: which step gets a message. The source keeps the active steps in order, to find the one
-- that started last by its id.
use procurator.Prelude.{
  ℕ, zero, suc, ◌<◌, ◌≡◌, refl, sym, ap, ◌∙◌, ◌⊎◌, inl, inr, false, some, List, [], ◌∷◌, ◌++◌,
  arith, ltb, ◌==◌, if◌then◌else◌, Bool-cases, Option-cases, count,
}
use procurator.RepoOutils.Logs.{
  MsgEntry, LogEntry, ActiveStep, entry_id, new_step, Steps, find_step, insert_step, remove_step,
  update_last, State, default_state, handle_start, finish, handle_stop, push_message, handle_msg,
  process_entry, process_entries,
}

abbrev Below : ℕ → Steps → Type 0
Below k [] = Unit
Below k ((j, s) ∷ steps) = k < j

-- The ids rise.
abbrev IsSorted : Steps → Type 0
IsSorted [] = Unit
IsSorted ((k, s) ∷ steps) = Below k steps × IsSorted steps

Below-insert_step :
    (k id : ℕ) (s : ActiveStep) (steps : Steps)
    → k < id
    → Below k steps
    → Below k (insert_step id s steps)
unfolding insert_step
Below-insert_step k id s [] lt b = lt
Below-insert_step k id s ((j, t) ∷ steps) lt b = ground arith

insert_step-IsSorted :
    (id : ℕ) (s : ActiveStep) (steps : Steps) → IsSorted steps → IsSorted (insert_step id s steps)
unfolding insert_step
insert_step-IsSorted id s [] h = (tt, tt)
insert_step-IsSorted id s ((j, t) ∷ steps) (b, h) = elim (Bool-cases (ltb id j)) [
  | inl e ↦ rw e (ground arith, (b, h))
  | inr e ↦ elim (Bool-cases (j == id)) [
    | inl q ↦ let same : j ≡ id = ground arith in rw (e, q, sym same) (b, h)
    | inr q ↦
        rw (e, q)
          (Below-insert_step j id s steps (ground arith) b, insert_step-IsSorted id s steps h)
  ]
]

Below-remove_step :
    (k id : ℕ) (steps : Steps) → Below k steps → IsSorted steps → Below k (remove_step id steps)
unfolding remove_step
Below-remove_step k id [] b h = tt
Below-remove_step k id ((j, t) ∷ []) b h = ground arith
Below-remove_step k id ((j, t) ∷ ((i, u) ∷ steps)) b (b', h) =
    let rest = Below-remove_step k id ((i, u) ∷ steps) (omega arith) h in
    elim (Bool-cases (j == id)) [ inl e ↦ rw e rest | inr e ↦ rw e b ]

remove_step-IsSorted : (id : ℕ) (steps : Steps) → IsSorted steps → IsSorted (remove_step id steps)
unfolding remove_step
remove_step-IsSorted id [] h = tt
remove_step-IsSorted id ((j, t) ∷ steps) (b, h) = elim (Bool-cases (j == id)) [
  | inl e ↦ rw e (remove_step-IsSorted id steps h)
  | inr e ↦ rw e (Below-remove_step j id steps b h, remove_step-IsSorted id steps h)
]

skip_key :
    (id j : ℕ) (t : ActiveStep) (steps : Steps)
    → (j == id) ≡ false
    → find_step id ((j, t) ∷ steps) ≡ find_step id steps
unfolding find_step
skip_key id j t steps e = rw e refl

skip_low :
    (id j : ℕ) (t : ActiveStep) (steps : Steps)
    → ltb id j ≡ false
    → count (λ (e : ℕ × ActiveStep). ltb id e.0) ((j, t) ∷ steps)
      ≡ count (λ (e : ℕ × ActiveStep). ltb id e.0) steps
unfolding count
skip_low id j t steps e = rw e (omega arith)

found_above :
    (j id : ℕ) (s : ActiveStep) (steps : Steps)
    → Below j steps
    → IsSorted steps
    → find_step id steps ≡ some s
    → j < id
unfolding find_step
found_above j id s [] b h e = absurd (cc e)
found_above j id s ((i, u) ∷ steps) b (b', h) e = elim (Bool-cases (i == id)) [
  | inl q ↦ ground arith
  | inr q ↦ let rest : i < id = found_above i id s steps b' h (ground arith) in omega arith
]

module _ (f : ActiveStep → ActiveStep) where
  update_last-IsSorted : (steps : Steps) → IsSorted steps → IsSorted (update_last f steps)
  unfolding update_last
  update_last-IsSorted [] h = tt
  update_last-IsSorted ((j, t) ∷ []) h = h
  update_last-IsSorted ((j, t) ∷ ((i, u) ∷ [])) h = h
  update_last-IsSorted ((j, t) ∷ ((i, u) ∷ (x ∷ steps))) (b, h) =
      (b, update_last-IsSorted ((i, u) ∷ (x ∷ steps)) h)

  find_step-update_last :
      (id : ℕ) (s : ActiveStep) (steps : Steps)
      → IsSorted steps
      → find_step id steps ≡ some s
      → find_step id (update_last f steps)
        ≡ (if count (λ (e : ℕ × ActiveStep). ltb id e.0) steps == 0 then some (f s) else some s)
  unfolding update_last find_step count
  find_step-update_last id s [] h e = absurd (cc e)
  find_step-update_last id s ((j, t) ∷ []) h e = ground arith
  find_step-update_last id s ((j, t) ∷ ((i, u) ∷ steps)) (b, h) e = elim (Bool-cases (j == id)) [
    | inl q ↦ ground arith
    | inr q ↦
        let found : find_step id ((i, u) ∷ steps) ≡ some s = unfold find_step in ground arith in
        let above = found_above j id s ((i, u) ∷ steps) b h found in
        let low : ltb id j ≡ false = ground arith in
        skip_key id j t (update_last f ((i, u) ∷ steps)) q
        ∙ find_step-update_last id s ((i, u) ∷ steps) h found
        ∙ ap (λ c. if c == 0 then some (f s) else some s)
            (sym (skip_low id j t ((i, u) ∷ steps) low))
  ]

stop-active_steps :
    (i time : ℕ) (st : State)
    → let after = (process_entry (LogEntry.stop i) time st).active_steps in
      (after ≡ st.active_steps) ⊎ (after ≡ remove_step i st.active_steps)
unfolding process_entry handle_stop finish entry_id
stop-active_steps zero time st = inl refl
stop-active_steps (suc n) time st = elim (Option-cases (find_step (suc n) st.active_steps)) [
  | inl r ↦ inl (ground arith)
  | inr (s, r) ↦ inr (ground arith)
]

process_entry-IsSorted :
    (e : LogEntry) (time : ℕ) (st : State)
    → IsSorted st.active_steps
    → IsSorted (process_entry e time st).active_steps
process_entry-IsSorted (LogEntry.start e) time st h = elim (Option-cases (entry_id e.id)) [
  | inl q ↦
      let r : (process_entry (LogEntry.start e) time st).active_steps ≡ st.active_steps =
        unfold process_entry handle_start in ground arith in
      rw r h
  | inr (id, q) ↦
      let r : (process_entry (LogEntry.start e) time st).active_steps
          ≡ insert_step id (new_step e time) st.active_steps =
        unfold process_entry handle_start in ground arith in
      rw r (insert_step-IsSorted id (new_step e time) st.active_steps h)
]
process_entry-IsSorted (LogEntry.stop i) time st h = elim (stop-active_steps i time st) [
  | inl r ↦ rw r h
  | inr r ↦ rw r (remove_step-IsSorted i st.active_steps h)
]
process_entry-IsSorted (LogEntry.msg m) time st h =
    unfold process_entry handle_msg in update_last-IsSorted (push_message m time) st.active_steps h
process_entry-IsSorted (LogEntry.result r) time st h = unfold process_entry in h

process_entries-IsSorted :
    (es : List (LogEntry × ℕ)) (st : State)
    → IsSorted st.active_steps
    → IsSorted (process_entries es st).active_steps
unfolding process_entries
process_entries-IsSorted [] st h = h
process_entries-IsSorted ((e, time) ∷ es) st h =
    process_entries-IsSorted es (process_entry e time st) (process_entry-IsSorted e time st h)

-- After any log, a message goes to the active step with the greatest id: that step has it behind the
-- messages that it had, any other active step is as it was, and so are the finished steps.
pub process_entry-msg :
    (es : List (LogEntry × ℕ)) (m : MsgEntry) (time id : ℕ) (s : ActiveStep)
    → find_step id (process_entries es default_state).active_steps ≡ some s
    → let st = process_entries es default_state in
      let after = process_entry (LogEntry.msg m) time st in
      (find_step id after.active_steps ≡ (
        if count (λ (e : ℕ × ActiveStep). ltb id e.0) st.active_steps == 0
        then some
            (record s { messages = s.messages ++ (record { entry = m; timestamp = time } ∷ []) })
        else some s))
      × (after.finished_steps ≡ st.finished_steps)
unfolding process_entry handle_msg push_message
process_entry-msg es m time id s at = (
  find_step-update_last (push_message m time) id s (process_entries es default_state).active_steps
      (process_entries-IsSorted es default_state tt) at,
  refl,
)
