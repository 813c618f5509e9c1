-- ===== src/Ci/Runner/Drain.antt =====
-- worker.rs: the queue drains, whatever the checks say.
use procurator.Prelude.{
  ℕ, zero, suc, ◌+◌, ◌-◌, ◌≤◌, String, ◌≡◌, refl, ap, ◌∙◌, inl, inr, true, false, none, some, List,
  [], ◌∷◌, arith, eq_iff, if◌then◌else◌, retain, All, Result,
}
use procurator.Ci.Builds.{queued, running, success, failed, as_str, BuildJob, can_retry}
use procurator.Ci.Rows.{
  earliest, find_build, update_build, has_status, NodupIds, update_build-NodupIds,
  update_build-update_build, update_build_absent,
}
use procurator.Ci.Queue.{World, Database, start_build, next_queued, get_pending}
use procurator.Ci.Queue.Pending.{IsIdle, IsNext, get_pending_idle}
use procurator.Ci.Runner.{attempt, sleep, round, rounds}
use procurator.Ci.Runner.Attempt.{
  Settles, Settled, succeeded, requeued, given_up, attempt-Attempted,
}

-- How many attempts a build may still get, and how many all the builds may get.
todo : BuildJob → ℕ
todo r = if has_status queued r then r.max_retries - r.retry_count + 1 else 0

unfoldable pub total : List BuildJob → ℕ
unfolding todo
total [] = 0
total (r ∷ rows) = todo r + total rows

abbrev pub WithinRetries : BuildJob → Type 0
WithinRetries r = r.retry_count ≤ r.max_retries

-- No statement fails, ids are unique, no build is running, and no build was retried too often.
pub record IsReady (w : World) : Type 0 where
  pub calm : w.faults ≡ []
  pub keys : NodupIds w.db.builds
  pub idle : IsIdle w.db.builds
  pub bounded : All WithinRetries w.db.builds

total-update_build :
    (id : ℕ) (f : BuildJob → BuildJob) (c : BuildJob) (rows : List BuildJob)
    → NodupIds rows
    → find_build id rows ≡ some c
    → total (update_build id f rows) + todo c ≡ total rows + todo (f c)
unfolding total update_build find_build
total-update_build id f c [] d h = absurd (cc h)
total-update_build id f c (r ∷ rows) d h =
    ground (arith, update_build_absent id f rows, total-update_build id f c rows d.1)

IsIdle-update_build :
    (id : ℕ) (f : BuildJob → BuildJob) (rows : List BuildJob)
    → ((r : BuildJob) → has_status running (f r) ≡ false)
    → IsIdle rows
    → IsIdle (update_build id f rows)
unfolding retain update_build
IsIdle-update_build id f [] h n = refl
IsIdle-update_build id f (r ∷ rows) h n = ground (arith, h r, IsIdle-update_build id f rows h)

bounded-update_build :
    (id : ℕ) (f : BuildJob → BuildJob) (c : BuildJob) (rows : List BuildJob)
    → NodupIds rows
    → find_build id rows ≡ some c
    → WithinRetries (f c)
    → All WithinRetries rows
    → All WithinRetries (update_build id f rows)
unfolding update_build find_build
bounded-update_build id f c [] d h k b = absurd (cc h)
bounded-update_build id f c (r ∷ rows) d h k b =
    ground (arith, update_build_absent id f rows, bounded-update_build id f c rows d.1)

bounded-find_build :
    (id : ℕ) (c : BuildJob) (rows : List BuildJob)
    → find_build id rows ≡ some c
    → All WithinRetries rows
    → WithinRetries c
unfolding find_build
bounded-find_build id c [] h b = absurd (cc h)
bounded-find_build id c (r ∷ rows) h b = ground (arith, bounded-find_build id c rows)

empty_earliest : (key : BuildJob → ℕ) (rows : List BuildJob) → earliest key rows ≡ none → rows ≡ []
unfolding earliest
empty_earliest key [] h = refl
empty_earliest key (r ∷ rows) h = absurd (cc h)

total_unqueued : (rows : List BuildJob) → retain (has_status queued) rows ≡ [] → total rows ≡ 0
unfolding total retain
total_unqueued [] h = refl
total_unqueued (r ∷ rows) h = ground (arith, total_unqueued rows)

unqueued_total : (rows : List BuildJob) → total rows ≡ 0 → retain (has_status queued) rows ≡ []
unfolding total retain
unqueued_total [] h = refl
unqueued_total (r ∷ rows) h = ground (arith, unqueued_total rows)

none_queued : (rows : List BuildJob) → next_queued rows ≡ none → total rows ≡ 0
unfolding next_queued
none_queued rows h = total_unqueued rows (empty_earliest _ _ h)

succeeded_unqueued : (r : BuildJob) → has_status success r ≡ true → has_status queued r ≡ false
unfolding has_status as_str
succeeded_unqueued r h = rw ((eq_iff r.status "success").0 h)

failed_unqueued : (r : BuildJob) → has_status failed r ≡ true → has_status queued r ≡ false
unfolding has_status as_str
failed_unqueued r h = rw ((eq_iff r.status "failed").0 h)

-- An attempt lowers what is left to do, ends with the build not running, and within its retries.
module _ (c r' : BuildJob) (now : ℕ) (is_queued : has_status queued c ≡ true) where
  todo-Settled :
      r'.max_retries ≡ c.max_retries
      → Settled (start_build now c) (start_build now c) r'
      → suc (todo r') ≤ todo c
  unfolding todo start_build can_retry
  todo-Settled m (succeeded s k) = ground (arith, succeeded_unqueued r' s)
  todo-Settled m (requeued a s k) = ground arith
  todo-Settled m (given_up a s k) = ground (arith, failed_unqueued r' s)

  bounded-Settled :
      WithinRetries c
      → r'.max_retries ≡ c.max_retries
      → Settled (start_build now c) (start_build now c) r'
      → WithinRetries r'
  unfolding start_build can_retry
  bounded-Settled b m (succeeded s k) = omega arith
  bounded-Settled b m (requeued a s k) = ground arith
  bounded-Settled b m (given_up a s k) = omega arith

idle-Settled : (build r r' : BuildJob) → Settled build r r' → has_status running r' ≡ false
unfolding has_status as_str
idle-Settled build r r' (succeeded s k) = rw ((eq_iff r'.status "success").0 s)
idle-Settled build r r' (requeued a s k) = rw ((eq_iff r'.status "queued").0 s)
idle-Settled build r r' (given_up a s k) = rw ((eq_iff r'.status "failed").0 s)

start_build_id : (now : ℕ) (r : BuildJob) → (start_build now r).id ≡ r.id
unfolding start_build
start_build_id now r = refl

claimed_then :
    (c : BuildJob) (now : ℕ) (g : BuildJob → BuildJob) (rows : List BuildJob)
    → update_build (start_build now c).id g (update_build c.id (start_build now) rows)
      ≡ update_build c.id (λ r. g (start_build now r)) rows
unfolding start_build
claimed_then c now g rows =
    update_build-update_build c.id (start_build now) (start_build_id now) g rows

-- The rows after an attempt at the claimed build.
module _ (c : BuildJob) (now : ℕ) (rows : List BuildJob) (next : IsNext rows c)
    (keys : NodupIds rows) (idle : IsIdle rows) (bounded : All WithinRetries rows)
    (g : BuildJob → BuildJob) (s : Settles (start_build now c) g) where
  abbrev both : BuildJob → BuildJob
  both r = g (start_build now r)

  both_id : (r : BuildJob) → (both r).id ≡ r.id
  both_id r = s.same_id (start_build now r) ∙ start_build_id now r

  both_max : (both c).max_retries ≡ c.max_retries
  unfolding start_build
  both_max = s.same_max (start_build now c)

  attempted_total : total (update_build c.id both rows) + 1 ≤ total rows
  attempted_total = omega (
    arith,
    total-update_build c.id both c rows keys next.present,
    todo-Settled c (both c) now next.is_queued both_max (s.settled (start_build now c)),
  )

  attempted_bounded : All WithinRetries (update_build c.id both rows)
  attempted_bounded =
      bounded-update_build c.id both c rows keys next.present
        (bounded-Settled c (both c) now next.is_queued
          (bounded-find_build c.id c rows next.present bounded) both_max
          (s.settled (start_build now c)))
        bounded

  attempted_IsReady :
      (w : World) → w.faults ≡ [] → w.db.builds ≡ update_build c.id both rows → IsReady w
  attempted_IsReady w calm e = record {
    calm = calm;
    keys = rw e (update_build-NodupIds c.id both both_id rows keys);
    idle = rw e (
        IsIdle-update_build c.id both rows (λ r. idle-Settled _ _ _ (s.settled (start_build now r)))
          idle);
    bounded = rw e attempted_bounded;
  }

module _ (flake_check : ℕ → String → Result (Unit {0}) String) where
  -- One round on a ready world leaves it ready, with fewer attempts to come, if there were any.
  round-IsReady :
      (w : World)
      → IsReady w
      → IsReady (round flake_check w)
        × (total (round flake_check w).db.builds ≤ total w.db.builds - 1)
  unfolding round sleep
  round-IsReady w r = elim (get_pending_idle w r.calm r.keys r.idle) [
    | inl (nothing, result, same, calm) ↦
        rw (result, round)
          (
            record {
              calm = calm;
              keys = rw same r.keys;
              idle = rw same r.idle;
              bounded = rw same r.bounded;
            },
            rw same (omega (arith, none_queued w.db.builds nothing)),
          )
    | inr (c, next, result, changed, calm) ↦
        let a = attempt-Attempted flake_check (start_build w.clock c) (get_pending w).1 calm in
        let rows = w.db.builds in
        let e : (attempt flake_check (start_build w.clock c) (get_pending w).1).db.builds
            ≡ update_build c.id (λ x. a.0 (start_build w.clock x)) w.db.builds =
          a.1.builds
          ∙ ap (update_build _ a.0) (ap (λ (d : Database). d.builds) changed)
          ∙ claimed_then c w.clock a.0 w.db.builds in
        rw (result, round)
          (
            attempted_IsReady c w.clock rows next r.keys r.idle r.bounded a.0 a.2 _ a.1.calm e,
            omega (
              arith,
              attempted_total c w.clock rows next r.keys r.idle r.bounded a.0 a.2,
              ap total e,
            ),
          )
  ]

  -- From a ready world, after as many rounds as there are attempts left, no build is queued or
  -- running, and none was retried more often than it may be, whatever the checks say.
  pub rounds_drain :
      (n : ℕ) (w : World)
      → IsReady w
      → total w.db.builds ≤ n
      → let rows = (rounds flake_check n w).db.builds in
        (retain (has_status queued) rows ≡ [])
        × (retain (has_status running) rows ≡ [])
        × All WithinRetries rows
  unfolding rounds
  rounds_drain zero w r h = (unqueued_total w.db.builds (omega arith), r.idle, r.bounded)
  rounds_drain (suc n) w r h =
      let k = round-IsReady w r in rounds_drain n (round flake_check w) k.0 (omega (arith, k.1))
