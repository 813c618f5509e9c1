-- ===== src/Ci/Queue.antt =====
-- ci_service/src/job_queue.rs: the queue of builds. Each method is a sequence of SQL statements, and
-- each statement may fail by itself and then changes nothing: the world holds, beside the tables,
-- which of the next statements fail, and a clock that every statement moves on.
pub mod Pending
pub mod Logs
pub mod Reads
use procurator.Prelude.{
  ℕ, zero, suc, ◌+◌, ◌-◌, ◌*◌, ◌/◌, ◌%◌, ◌^◌, ◌≤◌, ◌<◌, min, String, ◌<>◌, ◌≡◌, refl, sym, ap, ◌∙◌,
  ◌≢◌, ◌↔◌, ◌⊎◌, inl, inr, Bool, true, false, not, ◌&&◌, ◌||◌, Option, none, some, List, [], ◌∷◌,
  ◌++◌, map, arith, eq_iff, str_eq, ltb, leb, ◌==◌, if◌then◌else◌, Bool-cases, Option-cases, length,
  retain, count, All, take, length-map, length-append, length-take, length-retain, count-le-length,
  Result, ok, err, map_err, map_ok, and_then, ok_or, Result-cases, resume_post, Eff, pure, fail,
  gets, modify, resume, ◌>>=◌, ◌>>◌, map_error, best_effort,
}
use procurator.Ci.Builds.{BuildStatus, queued, running, success, failed, as_str, BuildJob}
use procurator.Ci.Rows.{earliest, find_build, update_build, has_status, started_key}

-- A row of `build_logs`.
pub record LogRow : Type 0 where
  pub build_id : ℕ
  pub log_line : String

pub record Database : Type 0 where
  pub builds : List BuildJob
  pub next_id : ℕ
  pub build_logs : List LogRow
  pub build_summaries : List (ℕ × String)

pub record World : Type 0 where
  pub db : Database
  pub faults : List Bool
  pub clock : ℕ

-- `query` carries the message of `sqlx`; `not_found id` is the message `Build {id} not found`.
pub data DatabaseError : Type 0 where
  connection : String → DatabaseError
  query_error : String → DatabaseError
  invalid_data : String → DatabaseError
  not_found : ℕ → DatabaseError

abbrev pub Action : Type 0 → Type 0
Action A = Eff World DatabaseError A

unfoldable pub fault : List Bool → Bool
fault [] = false
fault (b ∷ rest) = b

abbrev pub later_faults : List Bool → List Bool
later_faults [] = []
later_faults (b ∷ rest) = rest

-- One statement.
unfoldable pub query : {A : Type 0} → (Database → A × Database) → Action A
query f w =
    if fault w.faults
    then (
      err (query_error "database error"),
      record w { faults = later_faults w.faults; clock = suc w.clock },
    )
    else (
      ok (f w.db).0,
      record w { db = (f w.db).1; faults = later_faults w.faults; clock = suc w.clock },
    )

abbrev pub execute : (Database → Database) → Action (Unit {0})
execute f = query (λ d. (tt, f d))

-- `fetch_one`
unfoldable pub fetch_one : {A : Type 0} → Option A → Action A
fetch_one none =
    fail (query_error "no rows returned by a query that expected to return at least one row")
fetch_one (some a) = pure a

abbrev pub on_builds : (List BuildJob → List BuildJob) → Database → Database
on_builds f d = record d { builds = f d.builds }

-- `created_at` is the database's own clock, in seconds.
unfoldable pub new_build : ℕ → String → String → String → ℕ → BuildJob
new_build id repo_path commit branch created_at = record {
  id = id;
  repo_path = repo_path;
  commit_hash = commit;
  branch = branch;
  status = "queued";
  retry_count = 0;
  max_retries = 3;
  created_at = created_at;
  started_at = none;
  finished_at = none;
}

unfoldable pub enqueue : String → String → String → ℕ → Action ℕ
enqueue repo_path commit branch created_at = query λ d. (
  d.next_id,
  record d {
    builds = d.builds ++ (new_build d.next_id repo_path commit branch created_at ∷ []);
    next_id = suc d.next_id;
  },
)

unfoldable pub start_build : ℕ → BuildJob → BuildJob
start_build now r = record r { status = "running"; started_at = some now }

-- The queued build that is claimed next.
unfoldable pub next_queued : List BuildJob → Option BuildJob
next_queued rows = earliest (λ r. r.created_at) (retain (has_status queued) rows)

-- The first statement of `get_pending`, with the number of rows that it changes.
unfoldable pub claim : ℕ → Database → ℕ × Database
claim now d = elim (next_queued d.builds) [
  | none ↦ (0, d)
  | some r ↦ (1, on_builds (update_build r.id (start_build now)) d)
]

-- The second statement reads a running build back: the one that was started first.
unfoldable pub first_running : List BuildJob → Option BuildJob
first_running rows = earliest started_key (retain (has_status running) rows)

unfoldable pub read_back : ℕ → Action (Option BuildJob)
read_back zero = pure none
read_back (suc n) = do
  found ← query (λ d. (first_running d.builds, d))
  job ← fetch_one found
  pure (some job)

unfoldable pub get_pending : Action (Option BuildJob)
get_pending = do
  now ← gets (λ w. w.clock)
  rows_affected ← query (claim now)
  read_back rows_affected

-- What each branch of `update_status` sets.
unfoldable pub set_status : BuildStatus → ℕ → BuildJob → BuildJob
set_status running now r = record r { status = "running"; started_at = some now }
set_status success now r = record r { status = "success"; finished_at = some now }
set_status failed now r = record r { status = "failed"; finished_at = some now }
set_status queued now r = record r { status = "queued" }

unfoldable pub update_status : ℕ → BuildStatus → Action (Unit {0})
update_status id status = do
  now ← gets (λ w. w.clock)
  execute (on_builds (update_build id (set_status status now)))

unfoldable pub requeue : BuildJob → BuildJob
requeue r = record r { retry_count = r.retry_count + 1; status = "queued" }

unfoldable pub increment_retry : ℕ → Action (Unit {0})
increment_retry id = execute (on_builds (update_build id requeue))

unfoldable pub or_not_found : ℕ → Option BuildJob → Action BuildJob
or_not_found id none = fail (not_found id)
or_not_found id (some b) = pure b

unfoldable pub get_build : ℕ → Action BuildJob
get_build id = do found ← query (λ d. (find_build id d.builds, d)); or_not_found id found

-- ORDER BY created_at DESC LIMIT 100
unfoldable pub insert_by_age : BuildJob → List BuildJob → List BuildJob
insert_by_age b [] = b ∷ []
insert_by_age b (c ∷ cs) =
    let rest = insert_by_age b cs in if ltb b.created_at c.created_at then c ∷ rest else b ∷ c ∷ cs

unfoldable pub newest_first : List BuildJob → List BuildJob
newest_first [] = []
newest_first (b ∷ bs) = insert_by_age b (newest_first bs)

unfoldable pub list_all_builds : Action (List BuildJob)
list_all_builds = query (λ d. (take 100 (newest_first d.builds), d))

abbrev pub lines_of : ℕ → List LogRow → List LogRow
lines_of id = retain (λ r. r.build_id == id)

unfoldable pub join : List LogRow → String
join [] = ""
join (r ∷ rs) = r.log_line <> join rs

abbrev pub joined : List LogRow → Option String
joined [] = none
joined (r ∷ rs) = some (join (r ∷ rs))

unfoldable pub get_build_logs : ℕ → Action (Option String)
get_build_logs id = do
  log_lines ← query (λ d. (lines_of id d.build_logs, d))
  pure (joined log_lines)

unfoldable pub append_log : ℕ → String → Action (Unit {0})
append_log id log =
    execute
      λ d. record d { build_logs = d.build_logs ++ (record { build_id = id; log_line = log } ∷ []) }

-- The logs of a build are deleted, and the new text is entered if there is any.
unfoldable pub set_logs : ℕ → String → Action (Unit {0})
set_logs id logs = do
  execute (λ d. record d { build_logs = retain (λ r. not (r.build_id == id)) d.build_logs })
  if str_eq logs "" then pure tt else append_log id logs

-- A summary is a unit struct, whose JSON text is `null`.
unfoldable pub set_build_summary : ℕ → Action (Unit {0})
set_build_summary id = execute λ d. record d {
  build_summaries = (id, "null") ∷ retain (λ s. not (s.0 == id)) d.build_summaries;
}
