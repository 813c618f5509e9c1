-- ===== src/Ci/Runner.antt =====
-- ci_service/src/worker.rs: the loop that takes builds from the queue and runs `nix flake check`.
-- The check itself is a parameter: what it gives at a time for a URL.
pub mod Attempt
pub mod Drain
use procurator.Prelude.{
  ℕ, zero, suc, ◌+◌, ◌-◌, ◌*◌, ◌/◌, ◌%◌, ◌^◌, ◌≤◌, ◌<◌, min, String, ◌<>◌, ◌≡◌, refl, sym, ap, ◌∙◌,
  ◌≢◌, ◌↔◌, ◌⊎◌, inl, inr, Bool, true, false, not, ◌&&◌, ◌||◌, Option, none, some, List, [], ◌∷◌,
  ◌++◌, map, arith, eq_iff, str_eq, ltb, leb, ◌==◌, if◌then◌else◌, Bool-cases, Option-cases, length,
  retain, count, All, take, length-map, length-append, length-take, length-retain, count-le-length,
  Result, ok, err, map_err, map_ok, and_then, ok_or, Result-cases, resume_post, Eff, pure, fail,
  gets, modify, resume, ◌>>=◌, ◌>>◌, map_error, best_effort,
}
use procurator.Ci.Builds.{
  BuildStatus, queued, running, success, failed, as_str, BuildJob, git_url, can_retry,
}
use procurator.Ci.Queue.{
  World, Database, DatabaseError, update_status, set_logs, append_log, set_build_summary,
  increment_retry, get_pending,
}

-- `database` carries the error whose message the source stores.
pub data WorkerError : Type 0 where
  database : DatabaseError → WorkerError
  nix : String → WorkerError

module _ (flake_check : ℕ → String → Result (Unit {0}) String) where
  -- The `match` on the result of the check.
  unfoldable pub finish : BuildJob → Result (Unit {0}) String → Eff World WorkerError (Unit {0})
  finish build (ok summary) = do
    map_error database (set_build_summary build.id)
    map_error database (update_status build.id success)
  finish build (err e) = do
    map_error database (append_log build.id ("Build failed: " <> (e <> "\n")))
    map_error database (update_status build.id failed)
    fail (nix ("Build failed: " <> e))

  unfoldable pub process_build : BuildJob → Eff World WorkerError (Unit {0})
  process_build build = do
    map_error database (update_status build.id running)
    map_error database
        (set_logs build.id ("$ nix flake check " <> (git_url build <> " --print-build-logs\n")))
    checked ← gets (λ w. flake_check w.clock (git_url build))
    finish build checked

  -- A build that failed is queued again while it has retries left; errors are only logged.
  unfoldable pub after_failure : BuildJob → World → World
  after_failure build w =
      if can_retry build
      then (increment_retry build.id w).1
      else (update_status build.id failed w).1

  unfoldable pub attempt : BuildJob → World → World
  attempt build w = elim (process_build build w).0 [
    | ok a ↦ (process_build build w).1
    | err e ↦ after_failure build (process_build build w).1
  ]

  unfoldable pub sleep : ℕ → World → World
  sleep secs w = record w { clock = w.clock + secs }

  -- One round of the loop in `run`.
  unfoldable pub round : World → World
  round w = elim (get_pending w).0 [
    | ok (some build) ↦ attempt build (get_pending w).1
    | ok none ↦ sleep 2 (get_pending w).1
    | err e ↦ sleep 5 (get_pending w).1
  ]

  unfoldable pub rounds : ℕ → World → World
  rounds zero w = w
  rounds (suc n) w = rounds n (round w)
