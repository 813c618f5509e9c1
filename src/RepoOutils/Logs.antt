-- ===== src/RepoOutils/Logs.antt =====
-- repo_outils/src/nix/logs.rs: the state machine that reads the JSON log of a nix process. JSON is
-- not part of the repository: a log is the entries that its lines give, with the times at which they
-- are read. A `SystemTime` is a number.
pub mod Steps
pub mod Messages
pub mod Timeline
pub mod Summary
use procurator.Prelude.{
  ℕ, zero, suc, ◌+◌, ◌-◌, ◌*◌, ◌/◌, ◌%◌, ◌^◌, ◌≤◌, ◌<◌, min, String, ◌<>◌, ◌≡◌, refl, sym, ap, ◌∙◌,
  ◌≢◌, ◌↔◌, ◌⊎◌, inl, inr, Bool, true, false, not, ◌&&◌, ◌||◌, Option, none, some, List, [], ◌∷◌,
  ◌++◌, map, arith, eq_iff, str_eq, ltb, leb, ◌==◌, if◌then◌else◌, Bool-cases, Option-cases, length,
  retain, count, All, take, length-map, length-append, length-take, length-retain, count-le-length,
  Result, ok, err, map_err, map_ok, and_then, ok_or, Result-cases, resume_post, Eff, pure, fail,
  gets, modify, resume, ◌>>=◌, ◌>>◌, map_error, best_effort,
}

pub record StartEntry : Type 0 where
  pub id : ℕ
  pub level : ℕ
  pub parent : ℕ
  pub text : String
  pub log_type : ℕ

pub record MsgEntry : Type 0 where
  pub level : ℕ
  pub msg : String
  pub raw_msg : Option String
  pub column : Option ℕ
  pub file : Option String
  pub line : Option ℕ

pub record ResultEntry : Type 0 where
  pub id : ℕ
  pub fields : List ℕ
  pub log_type : ℕ

-- A stop has just an id.
pub data LogEntry : Type 0 where
  start : StartEntry → LogEntry
  stop : ℕ → LogEntry
  msg : MsgEntry → LogEntry
  result : ResultEntry → LogEntry

pub record Message : Type 0 where
  pub entry : MsgEntry
  pub timestamp : ℕ

pub record ActiveStep : Type 0 where
  pub text : String
  pub level : ℕ
  pub log_type : ℕ
  pub started_at : ℕ
  pub parent : Option ℕ
  pub messages : List Message

pub record FinishedStep : Type 0 where
  pub id : ℕ
  pub text : String
  pub level : ℕ
  pub log_type : ℕ
  pub started_at : ℕ
  pub parent : Option ℕ
  pub messages : List Message
  pub completed_at : ℕ

-- `EntryId::new`: zero is no id.
unfoldable pub entry_id : ℕ → Option ℕ
entry_id zero = none
entry_id (suc n) = some (suc n)

unfoldable pub new_step : StartEntry → ℕ → ActiveStep
new_step e timestamp = record {
  text = e.text;
  level = e.level;
  log_type = e.log_type;
  started_at = timestamp;
  parent = entry_id e.parent;
  messages = [];
}

unfoldable pub complete : ℕ → ℕ → ActiveStep → FinishedStep
complete id completed_at s = record {
  id = id;
  text = s.text;
  level = s.level;
  log_type = s.log_type;
  started_at = s.started_at;
  parent = s.parent;
  messages = s.messages;
  completed_at = completed_at;
}

-- The `BTreeMap` of active steps, in the order of its keys.
abbrev pub Steps : Type 0
Steps = List (ℕ × ActiveStep)

unfoldable pub find_step : ℕ → Steps → Option ActiveStep
find_step id [] = none
find_step id ((k, s) ∷ steps) = let rest = find_step id steps in if k == id then some s else rest

unfoldable pub insert_step : ℕ → ActiveStep → Steps → Steps
insert_step id s [] = (id, s) ∷ []
insert_step id s ((k, t) ∷ steps) =
    let rest = insert_step id s steps in
    if ltb id k
    then (id, s) ∷ (k, t) ∷ steps
    else if k == id
    then (id, s) ∷ steps
    else (k, t) ∷ rest

unfoldable pub remove_step : ℕ → Steps → Steps
remove_step id [] = []
remove_step id ((k, t) ∷ steps) =
    let rest = remove_step id steps in if k == id then rest else (k, t) ∷ rest

-- `last_entry`, and a change of its value.
unfoldable pub update_last : (ActiveStep → ActiveStep) → Steps → Steps
update_last f [] = []
update_last f ((k, t) ∷ []) = (k, f t) ∷ []
update_last f ((k, t) ∷ (s ∷ steps)) = (k, t) ∷ update_last f (s ∷ steps)

pub record State : Type 0 where
  pub finished_steps : List FinishedStep
  pub active_steps : Steps

abbrev pub default_state : State
default_state = record { finished_steps = []; active_steps = [] }

unfoldable pub handle_start : StartEntry → ℕ → State → State
handle_start e timestamp st = elim (entry_id e.id) [
  | none ↦ st
  | some id ↦ record st { active_steps = insert_step id (new_step e timestamp) st.active_steps }
]

-- The step of a stop, if it is active.
unfoldable pub finish : ℕ → ℕ → Option ActiveStep → State → State
finish id timestamp none st = st
finish id timestamp (some s) st = record {
  finished_steps = st.finished_steps ++ (complete id timestamp s ∷ []);
  active_steps = remove_step id st.active_steps;
}

unfoldable pub handle_stop : ℕ → ℕ → State → State
handle_stop id timestamp st = elim (entry_id id) [
  | none ↦ st
  | some i ↦ finish i timestamp (find_step i st.active_steps) st
]

unfoldable pub push_message : MsgEntry → ℕ → ActiveStep → ActiveStep
push_message m timestamp s = record s {
  messages = s.messages ++ (record { entry = m; timestamp = timestamp } ∷ []);
}

unfoldable pub handle_msg : MsgEntry → ℕ → State → State
handle_msg m timestamp st = record st {
  active_steps = update_last (push_message m timestamp) st.active_steps;
}

unfoldable pub process_entry : LogEntry → ℕ → State → State
process_entry (LogEntry.start e) timestamp st = handle_start e timestamp st
process_entry (LogEntry.stop id) timestamp st = handle_stop id timestamp st
process_entry (LogEntry.msg m) timestamp st = handle_msg m timestamp st
process_entry (LogEntry.result r) timestamp st = st

-- The loop of `parse_lines`, over the lines that parse.
unfoldable pub process_entries : List (LogEntry × ℕ) → State → State
process_entries [] st = st
process_entries ((e, timestamp) ∷ rest) st = process_entries rest (process_entry e timestamp st)
