-- ===== src/RepoOutils/Examples.antt =====
-- The reading of a log at a concrete input.
use procurator.Prelude.{ℕ, ◌≡◌, none, List, [], ◌∷◌, ◌++◌, arith}
use procurator.RepoOutils.Logs.{
  StartEntry, MsgEntry, LogEntry, Message, default_state, new_step, find_step, process_entry,
  process_entries,
}
use procurator.Prelude.{some, refl}
use procurator.Prelude.{count, ltb, ◌==◌, if◌then◌else◌, none}
use procurator.RepoOutils.Logs.{ActiveStep, insert_step, entry_id, new_step, handle_start}
use procurator.RepoOutils.Logs.Messages.{process_entry-msg}
use procurator.RepoOutils.Logs.Steps.{finished, start_stop_lem}
use procurator.Prelude.{retain, Option, ◌≤◌, length}
use procurator.RepoOutils.Logs.{FinishedStep}
use procurator.RepoOutils.Logs.Timeline.{
  build_timeline, each_tree, has_parent, build_step_tree, is_id,
}
use procurator.RepoOutils.Logs.Summary.{
  Summary, into_output, duration, starts_id, into_output-process_entries,
}

abbrev check : StartEntry
check = record { id = 7; level = 3; parent = 0; text = "checking flake"; log_type = 0 }

abbrev evaluated : MsgEntry
evaluated = record {
  level = 3;
  msg = "derivation evaluated";
  raw_msg = none;
  column = none;
  file = none;
  line = none;
}

abbrev between : List (LogEntry × ℕ)
between =
    (LogEntry.msg evaluated, 11)
    ∷ (LogEntry.start (record check { id = 8 }), 12)
    ∷ (LogEntry.stop 8, 13)
    ∷ []

start_stop_example :
    let before = process_entries between (process_entry (LogEntry.start check) 10 default_state) in
    let after = process_entry (LogEntry.stop 7) 14 before in
    (find_step 7 after.active_steps ≡ none)
    × ((ms : List Message) × (after.finished_steps
          ≡ before.finished_steps ++ (finished check 10 14 ms ∷ [])))
start_stop_example =
    start_stop_lem check between 10 14 default_state (omega arith)
      (tt, ((λ q. absurd (omega arith)), ((λ q. absurd (omega arith)), tt)))

abbrev two_starts : List (LogEntry × ℕ)
two_starts = (LogEntry.start (record check { id = 8 }), 10) ∷ (LogEntry.start check, 11) ∷ []

-- The step 8 was started first, and gets the message.
process_entry-msg_example :
    let st = process_entries two_starts default_state in
    let after = process_entry (LogEntry.msg evaluated) 12 st in
    (find_step 8 after.active_steps ≡ (
      if count (λ (e : ℕ × ActiveStep). ltb 8 e.0) st.active_steps == 0
      then some (record (new_step (record check { id = 8 }) 10) {
        messages =
            (new_step (record check { id = 8 }) 10).messages
            ++ (record { entry = evaluated; timestamp = 12 } ∷ []);
      })
      else some (new_step (record check { id = 8 }) 10)))
    × (after.finished_steps ≡ st.finished_steps)
unfolding process_entries process_entry handle_start entry_id insert_step find_step
process_entry-msg_example =
    process_entry-msg two_starts evaluated 12 8 (new_step (record check { id = 8 }) 10) refl

-- One step within another, both stopped.
abbrev nested : List (LogEntry × ℕ)
nested =
    (LogEntry.start check, 10)
    ∷ (LogEntry.start (record check { id = 8; parent = 7 }), 11)
    ∷ (LogEntry.stop 8, 12)
    ∷ (LogEntry.stop 7, 13)
    ∷ []

nested-once : (id : ℕ) → count (starts_id id) nested ≤ 1
unfolding starts_id count
nested-once id = ground arith

into_output-process_entries_example :
    let st = process_entries nested default_state in
    (s : Summary) × (into_output (length st.finished_steps) 9 14 st ≡ some s)
    × (s.total_steps ≡ length st.finished_steps)
    × (duration s ≡ 0)
into_output-process_entries_example =
    into_output-process_entries nested 9 14 nested-once (omega arith)

-- Ids that are used again: the children of a step lead back to it, and 40 levels are not enough.
abbrev stopped : ℕ → Option ℕ → FinishedStep
stopped id parent = record {
  id = id;
  text = "";
  level = 3;
  log_type = 0;
  started_at = 0;
  parent = parent;
  messages = [];
  completed_at = 0;
}

endless : build_timeline 40 (stopped 1 none ∷ stopped 2 (some 1) ∷ stopped 1 (some 2) ∷ []) ≡ none
unfolding build_timeline each_tree retain has_parent build_step_tree is_id
endless = refl
