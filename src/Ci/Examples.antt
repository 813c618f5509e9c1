-- ===== src/Ci/Examples.antt =====
-- Sample data of the CI service, and its theorems at concrete inputs.
use procurator.Prelude.{
  ℕ, String, ◌≡◌, refl, ◌≢◌, ◌↔◌, ◌⊎◌, inl, true, false, Option, none, some, List, [], ◌∷◌, map,
  arith, ◌==◌, str_eq, if◌then◌else◌, retain, All, Result, ok, err,
}
use procurator.Prelude.{codes}
use procurator.Ci.Builds.{success, queued, running, BuildJob, from_str, lower, as_str, from_str_iff}
use procurator.Ci.Rows.{NodupIds, has_status, find_build, update_build, earliest}
use procurator.Ci.Queue.{
  World, Database, query_error, start_build, next_queued, get_pending, get_build_logs, set_logs,
  on_builds, or_not_found, query, fault,
}
use procurator.Ci.Queue
use procurator.Prelude.Strings.{strip_prefix}
use procurator.Ci.Queue.Pending.{IsNext, get_pending_idle, get_pending_stale, get_pending_lost}
use procurator.Ci.Queue.Logs.{get-set_logs}
use procurator.Ci.Api.{
  BuildRequest, StatusCode, accepted, branch_of, create_build, get_build, error_text,
}
use procurator.Ci.Api.Created.{get_build-create_build}
use procurator.Ci.Runner.{rounds}
use procurator.Ci.Runner.Drain.{IsReady, WithinRetries, total, rounds_drain}

abbrev job : ℕ → String → Option ℕ → BuildJob
job id status started_at = record {
  id = id;
  repo_path = "/repos/site.git";
  commit_hash = "c0ffee";
  branch = "main";
  status = status;
  retry_count = 0;
  max_retries = 3;
  created_at = id;
  started_at = started_at;
  finished_at = none;
}

abbrev database : List BuildJob → Database
database rows = record { builds = rows; next_id = 9; build_logs = []; build_summaries = [] }

-- Two builds wait.
abbrev waiting : World
waiting = record {
  db = database (job 1 "queued" none ∷ job 2 "queued" none ∷ []);
  faults = [];
  clock = 10;
}

-- A build of a worker that is gone still runs.
abbrev stuck : World
stuck = record {
  db = database (job 1 "running" (some 4) ∷ job 2 "queued" none ∷ []);
  faults = [];
  clock = 10;
}

-- The second statement from now fails.
abbrev faulty : World
faulty = record waiting { faults = false ∷ true ∷ [] }

-- A check that always fails.
abbrev never : ℕ → String → Result (Unit {0}) String
never now url = err "flake check failed"

from_str_example :
    (from_str "Success" ≡ ok success) ↔ (map lower (codes "Success") ≡ codes (as_str success))
from_str_example = from_str_iff "Success" success

waiting-NodupIds : NodupIds waiting.db.builds
unfolding find_build
waiting-NodupIds = (refl, (refl, tt))

get_pending_idle_example :
    let r = get_pending waiting in
    ((next_queued waiting.db.builds ≡ none)
      × (r.0 ≡ ok none)
      × (r.1.db ≡ waiting.db)
      × (r.1.faults ≡ []))
    ⊎ ((c : BuildJob) × IsNext waiting.db.builds c
        × (r.0 ≡ ok (some (start_build waiting.clock c)))
        × (r.1.db ≡ on_builds (update_build c.id (start_build waiting.clock)) waiting.db)
        × (r.1.faults ≡ []))
unfolding has_status as_str retain
get_pending_idle_example = get_pending_idle waiting refl waiting-NodupIds refl

get_pending_stale_example :
    let r = get_pending stuck in
    (find_build 2 r.1.db.builds ≡ some (start_build stuck.clock (job 2 "queued" none)))
    × ((j : BuildJob) × (r.0 ≡ ok (some j)) × (j.id ≢ 2))
unfolding find_build next_queued has_status as_str earliest retain
get_pending_stale_example =
    get_pending_stale stuck (job 2 "queued" none) (job 1 "running" (some 4)) 4 refl
      (refl, (refl, tt)) refl (inl refl) refl refl (omega arith)

get_pending_lost_example :
    let r = get_pending faulty in
    (r.0 ≡ err (query_error "database error"))
    × (find_build 1 r.1.db.builds ≡ some (start_build faulty.clock (job 1 "queued" none)))
unfolding find_build next_queued has_status as_str earliest retain
get_pending_lost_example =
    get_pending_lost faulty (job 1 "queued" none) [] refl (refl, (refl, tt)) refl

get-set_logs_example : (get_build_logs 1 (set_logs 1 "log" waiting).1).0 ≡ (
    if 1 == 1
    then ok (if str_eq "log" "" then none else some "log")
    else (get_build_logs 1 waiting).0)
get-set_logs_example = get-set_logs waiting 1 1 "log" refl

waiting-IsReady : IsReady waiting
unfolding find_build has_status as_str retain
waiting-IsReady = record {
  calm = refl;
  keys = (refl, (refl, tt));
  idle = refl;
  bounded = (omega arith, (omega arith, tt));
}

rounds_drain_example :
    let rows = (rounds never 8 waiting).db.builds in
    (retain (has_status queued) rows ≡ [])
    × (retain (has_status running) rows ≡ [])
    × All WithinRetries rows
unfolding total has_status as_str
rounds_drain_example = rounds_drain never 8 waiting waiting-IsReady (omega arith)

-- A push to the branch `topic`.
abbrev push : BuildRequest
push = record {
  repo = "site";
  bare_repo_path = "/repos/site.git";
  old_rev = none;
  new_rev = "badcab";
  ref_name = "refs/heads/topic";
  commit_author = some "Ana";
  commit_email = none;
  commit_message = none;
  gpg_status = none;
  gpg_key = none;
  gpg_signer = none;
  pusher = some "git";
  ssh_client_ip = none;
}

-- No other number is printed here.
abbrev digit : ℕ → String
digit _ = "9"

branch_of_push : branch_of push.ref_name ≡ "topic"
unfolding branch_of strip_prefix
branch_of_push = refl

unknown_build :
    (get_build digit 9 waiting).0
    ≡ err (StatusCode.not_found, "Build not found: Not found: Build 9 not found")
unfolding get_build Queue.get_build or_not_found error_text query fault find_build
unknown_build = refl

get_build-create_build_example :
    let r = create_build digit push 11 waiting in
    (r.0 ≡ ok (accepted, record { id = 9; status = queued }))
    × ((get_build digit 9 r.1).0
        ≡ ok record {
          id = 9;
          repo_path = "/repos/site.git";
          commit_hash = "badcab";
          branch = branch_of "refs/heads/topic";
          status = queued;
          retry_count = 0;
        })
    × ((get_build digit 1 r.1).0 ≡ (get_build digit 1 waiting).0)
unfolding find_build
get_build-create_build_example =
    get_build-create_build digit waiting push 11 1 refl refl (omega arith)
