-- ===== src/Ci/Runner/Attempt.antt =====
-- worker.rs: how an attempt at a build ends, while no statement fails.
use procurator.Prelude.{
  ℕ, ◌+◌, String, ◌<>◌, ◌≡◌, refl, ap, ◌∙◌, inl, inr, true, false, List, [], arith, Bool-cases,
  Result, ok, err,
}
use procurator.Ci.Builds.{
  BuildStatus, queued, running, success, failed, as_str, BuildJob, git_url, can_retry,
}
use procurator.Ci.Rows.{update_build, has_status, update_build-update_build}
use procurator.Ci.Queue.{
  World, fault, query, set_status, requeue, update_status, set_logs, append_log, set_build_summary,
  increment_retry,
}
use procurator.Ci.Runner.{WorkerError, nix, finish, process_build, after_failure, attempt}

module _ (w : World) (calm : w.faults ≡ []) (id : ℕ) where
  update_status-calm :
      (s : BuildStatus)
      → ((update_status id s w).0 ≡ ok tt)
        × ((update_status id s w).1.faults ≡ [])
        × ((update_status id s w).1.db.builds ≡ update_build id (set_status s w.clock) w.db.builds)
  unfolding update_status query fault
  update_status-calm s = ground arith

  set_logs-calm :
      (text : String)
      → ((set_logs id text w).0 ≡ ok tt)
        × ((set_logs id text w).1.faults ≡ [])
        × ((set_logs id text w).1.db.builds ≡ w.db.builds)
  unfolding set_logs append_log query fault
  set_logs-calm text = ground arith

  append_log-calm :
      (text : String)
      → ((append_log id text w).0 ≡ ok tt)
        × ((append_log id text w).1.faults ≡ [])
        × ((append_log id text w).1.db.builds ≡ w.db.builds)
  unfolding append_log query fault
  append_log-calm text = ground arith

  set_build_summary-calm :
      ((set_build_summary id w).0 ≡ ok tt)
      × ((set_build_summary id w).1.faults ≡ [])
      × ((set_build_summary id w).1.db.builds ≡ w.db.builds)
  unfolding set_build_summary query fault
  set_build_summary-calm = ground arith

  increment_retry-calm :
      ((increment_retry id w).1.faults ≡ [])
      × ((increment_retry id w).1.db.builds ≡ update_build id requeue w.db.builds)
  unfolding increment_retry query fault
  increment_retry-calm = ground arith

set_status_id : (s : BuildStatus) (now : ℕ) (r : BuildJob) → (set_status s now r).id ≡ r.id
unfolding set_status
set_status_id queued now r = refl
set_status_id running now r = refl
set_status_id success now r = refl
set_status_id failed now r = refl

broken_id : (t now : ℕ) (r : BuildJob) → (set_status failed now (set_status running t r)).id ≡ r.id
unfolding set_status
broken_id t now r = refl

-- How an attempt at a build ends for its row: the build succeeded, or it is queued for another
-- attempt and this one is counted, or it has failed for good.
pub data Settled (build r : BuildJob) (r' : BuildJob) : Type 0 where
  succeeded : has_status success r' ≡ true → r'.retry_count ≡ r.retry_count → Settled build r r'
  requeued :
      can_retry build ≡ true
      → has_status queued r' ≡ true
      → r'.retry_count ≡ r.retry_count + 1
      → Settled build r r'
  given_up :
      can_retry build ≡ false
      → has_status failed r' ≡ true
      → r'.retry_count ≡ r.retry_count
      → Settled build r r'

pub record Settles (build : BuildJob) (g : BuildJob → BuildJob) : Type 0 where
  pub same_id : (r : BuildJob) → (g r).id ≡ r.id
  pub same_max : (r : BuildJob) → (g r).max_retries ≡ r.max_retries
  pub settled : (r : BuildJob) → Settled build r (g r)

-- A world whose statements do not fail, and whose builds are those of `rows` but for one update.
pub record Updated (id : ℕ) (g : BuildJob → BuildJob) (rows : List BuildJob) (w : World)
    : Type 0 where
  pub calm : w.faults ≡ []
  pub builds : w.db.builds ≡ update_build id g rows

update_status-Updated :
    (id : ℕ) (s : BuildStatus) (g : BuildJob → BuildJob) (rows : List BuildJob) (w : World)
    → ((r : BuildJob) → (g r).id ≡ r.id)
    → Updated id g rows w
    → ((update_status id s w).0 ≡ ok tt)
      × Updated id (λ r. set_status s w.clock (g r)) rows (update_status id s w).1
update_status-Updated id s g rows w same u =
    let k = update_status-calm w u.calm id s in
    (
      k.0,
      record {
        calm = k.1;
        builds =
            k.2
            ∙ ap (update_build id (set_status s w.clock)) u.builds
            ∙ update_build-update_build id g same (set_status s w.clock) rows;
      },
    )

module _ (flake_check : ℕ → String → Result (Unit {0}) String) (build : BuildJob) where
  abbrev pub Attempted : List BuildJob → World → Type 0
  Attempted rows w = (g : BuildJob → BuildJob) × Updated build.id g rows w × Settles build g

  finish_ok :
      (g : BuildJob → BuildJob) (rows : List BuildJob) (w : World)
      → ((r : BuildJob) → (g r).id ≡ r.id)
      → Updated build.id g rows w
      → let r = finish flake_check build (ok tt) w in
        (r.0 ≡ ok tt) × ((now : ℕ) × Updated build.id (λ x. set_status success now (g x)) rows r.1)
  unfolding finish
  finish_ok g rows w same u =
      let s = set_build_summary-calm w u.calm build.id in
      let w' = (set_build_summary build.id w).1 in
      let v : Updated build.id g rows w' = record { calm = s.1; builds = s.2 ∙ u.builds } in
      let k = update_status-Updated build.id success g rows w' same v in
      rw (s.0, finish) (rw k.0 refl, (w'.clock, k.1))

  finish_err :
      (e : String) (g : BuildJob → BuildJob) (rows : List BuildJob) (w : World)
      → ((r : BuildJob) → (g r).id ≡ r.id)
      → Updated build.id g rows w
      → let r = finish flake_check build (err e) w in
        (r.0 ≡ err (nix ("Build failed: " <> e)))
        × ((now : ℕ) × Updated build.id (λ x. set_status failed now (g x)) rows r.1)
  unfolding finish
  finish_err e g rows w same u =
      let text = "Build failed: " <> (e <> "\n") in
      let s = append_log-calm w u.calm build.id text in
      let w' = (append_log build.id text w).1 in
      let v : Updated build.id g rows w' = record { calm = s.1; builds = s.2 ∙ u.builds } in
      let k = update_status-Updated build.id failed g rows w' same v in
      rw (s.0, finish) (rw k.0 refl, rw k.0 (w'.clock, k.1))

  -- The two ways in which an attempt's own part ends.
  data Processed (rows : List BuildJob) (r : Result (Unit {0}) WorkerError × World) : Type 0 where
    passed :
        (t now : ℕ)
        → r.0 ≡ ok tt
        → Updated build.id (λ x. set_status success now (set_status running t x)) rows r.1
        → Processed rows r
    broke :
        (t now : ℕ) (e : WorkerError)
        → r.0 ≡ err e
        → Updated build.id (λ x. set_status failed now (set_status running t x)) rows r.1
        → Processed rows r

  finish-Processed :
      (checked : Result (Unit {0}) String) (t : ℕ) (rows : List BuildJob) (w : World)
      → Updated build.id (set_status running t) rows w
      → Processed rows (finish flake_check build checked w)
  finish-Processed (ok summary) t rows w u =
      let k = finish_ok (set_status running t) rows w (set_status_id running t) u in
      passed t k.1.0 k.0 k.1.1
  finish-Processed (err e) t rows w u =
      let k = finish_err e (set_status running t) rows w (set_status_id running t) u in
      broke t k.1.0 _ k.0 k.1.1

  process_build-Processed :
      (w : World) → w.faults ≡ [] → Processed w.db.builds (process_build flake_check build w)
  unfolding process_build
  process_build-Processed w calm =
      let text = "$ nix flake check " <> (git_url build <> " --print-build-logs\n") in
      let s = update_status-calm w calm build.id running in
      let w' = (update_status build.id running w).1 in
      let l = set_logs-calm w' s.1 build.id text in
      let w'' = (set_logs build.id text w').1 in
      rw (s.0, process_build)
        (rw l.0 (
          finish-Processed (flake_check w''.clock (git_url build)) w.clock w.db.builds w''
            (record { calm = l.1; builds = l.2 ∙ s.2 })))

  passed_Settles :
      (t now : ℕ) → Settles build (λ x. set_status success now (set_status running t x))
  unfolding set_status has_status as_str
  passed_Settles t now = record {
    same_id = λ r. refl;
    same_max = λ r. refl;
    settled = λ r. succeeded refl refl;
  }

  requeued_Settles :
      can_retry build ≡ true
      → (t now : ℕ) → Settles build (λ x. requeue (set_status failed now (set_status running t x)))
  unfolding set_status requeue has_status as_str
  requeued_Settles again t now = record {
    same_id = λ r. refl;
    same_max = λ r. refl;
    settled = λ r. requeued again refl refl;
  }

  given_up_Settles :
      can_retry build ≡ false
      → (t now last : ℕ)
      → Settles build (λ x. set_status failed last (set_status failed now (set_status running t x)))
  unfolding set_status has_status as_str
  given_up_Settles no_more t now last = record {
    same_id = λ r. refl;
    same_max = λ r. refl;
    settled = λ r. given_up no_more refl refl;
  }

  after_failure-Attempted :
      (t now : ℕ) (rows : List BuildJob) (w : World)
      → Updated build.id (λ x. set_status failed now (set_status running t x)) rows w
      → Attempted rows (after_failure flake_check build w)
  unfolding after_failure
  after_failure-Attempted t now rows w u = elim (Bool-cases (can_retry build)) [
    | inl again ↦
        let k = increment_retry-calm w u.calm build.id in
        rw (again, after_failure)
          (
            (λ x. requeue (set_status failed now (set_status running t x))),
            record {
              calm = k.0;
              builds =
                  k.1
                  ∙ ap (update_build build.id requeue) u.builds
                  ∙ update_build-update_build build.id
                      (λ x. set_status failed now (set_status running t x)) (broken_id t now)
                      requeue rows;
            },
            requeued_Settles again t now,
          )
    | inr last ↦
        let k = update_status-Updated build.id failed _ rows w (broken_id t now) u in
        rw (last, after_failure) (_, k.1, given_up_Settles last t now w.clock)
  ]

  pub attempt-Attempted :
      (w : World) → w.faults ≡ [] → Attempted w.db.builds (attempt flake_check build w)
  unfolding attempt
  attempt-Attempted w calm = elim (process_build-Processed w calm) [
    | passed t now e u ↦ rw (e, attempt) (_, u, passed_Settles t now)
    | broke t now x e u ↦ rw (e, attempt) (after_failure-Attempted t now w.db.builds _ u)
  ]
