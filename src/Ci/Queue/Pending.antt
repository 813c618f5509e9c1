-- ===== src/Ci/Queue/Pending.antt =====
-- job_queue.rs, `get_pending`: which build a worker gets.
use procurator.Prelude.{In, In-retain, retain-In}
use procurator.Prelude.{
  ℕ, suc, ◌≤◌, ◌<◌, ◌≡◌, refl, sym, ap, ◌∙◌, ◌≢◌, ◌⊎◌, inl, inr, Bool, true, false, none, some,
  List, [], ◌∷◌, arith, Option-cases, retain, All, ok, err,
}
use mathlib.Core.Bool.{false≢true}
use procurator.Ci.Builds.{queued, running, as_str, BuildJob}
use procurator.Ci.Rows.{
  earliest, find_build, update_build, has_status, started_key, NodupIds, In-find_build, In-earliest,
  earliest-le, find_build-update_build, update_build-NodupIds, retain-update_build,
}
use procurator.Ci.Rows.{In-update_build, earliest-some, one_status}
use procurator.Ci.Rows.{earliest-All}
use procurator.Ci.Queue.{
  World, query, query_error, fault, fetch_one, start_build, next_queued, claim, first_running,
  read_back, get_pending, on_builds,
}

-- No build is running.
abbrev pub IsIdle : List BuildJob → Type 0
IsIdle rows = retain (has_status running) rows ≡ []

-- The oldest queued build of a table.
pub record IsNext (rows : List BuildJob) (c : BuildJob) : Type 0 where
  pub present : find_build c.id rows ≡ some c
  pub is_queued : has_status queued c ≡ true
  pub oldest : All (λ y. c.created_at ≤ y.created_at) (retain (has_status queued) rows)

pub next_queued-IsNext :
    (rows : List BuildJob) (c : BuildJob)
    → NodupIds rows
    → next_queued rows ≡ some c
    → IsNext rows c
unfolding next_queued
next_queued-IsNext rows c d h =
    let k = In-retain (has_status queued) c rows (In-earliest (λ r. r.created_at) c _ h) in
    record {
      present = In-find_build c rows d k.1;
      is_queued = k.0;
      oldest = earliest-All (λ r. r.created_at) c _ h;
    }

read_back_claimed :
    (rows : List BuildJob) (c : BuildJob) (now : ℕ)
    → NodupIds rows
    → IsIdle rows
    → find_build c.id rows ≡ some c
    → first_running (update_build c.id (start_build now) rows) ≡ some (start_build now c)
unfolding first_running earliest
read_back_claimed rows c now d idle at =
    rw
      (retain-update_build (has_status running) c.id (start_build now) c rows d idle at
        (unfold has_status start_build as_str in refl))
      refl

-- With no statement failing and no build running, a worker gets nothing exactly if nothing is
-- queued, and the table stays. Otherwise it gets the oldest queued build, just started, and this
-- build's row is the only one to change.
pub get_pending_idle :
    (w : World)
    → w.faults ≡ []
    → NodupIds w.db.builds
    → IsIdle w.db.builds
    → let r = get_pending w in
      ((next_queued w.db.builds ≡ none) × (r.0 ≡ ok none) × (r.1.db ≡ w.db) × (r.1.faults ≡ []))
      ⊎ ((c : BuildJob) × IsNext w.db.builds c
          × (r.0 ≡ ok (some (start_build w.clock c)))
          × (r.1.db ≡ on_builds (update_build c.id (start_build w.clock)) w.db)
          × (r.1.faults ≡ []))
unfolding get_pending query fault claim read_back fetch_one
get_pending_idle w calm d idle = elim (Option-cases (next_queued w.db.builds)) [
  | inl e ↦ inl (e, ground arith, ground arith, ground arith)
  | inr (c, e) ↦
      let next = next_queued-IsNext w.db.builds c d e in
      let back = read_back_claimed w.db.builds c w.clock d idle next.present in
      inr (c, next, ground arith, ground arith, ground arith)
]

same_row :
    (rows : List BuildJob) (id : ℕ) (x y : BuildJob)
    → find_build id rows ≡ some x
    → find_build id rows ≡ some y
    → x ≡ y
same_row rows id x y p q = cc

module _ (rows : List BuildJob) (c stale : BuildJob) (s now : ℕ) (d : NodupIds rows)
    (next : IsNext rows c) (at : In stale rows) (is_running : has_status running stale ≡ true)
    (started : stale.started_at ≡ some s) (before : s < now) where
  other_row : stale.id ≢ c.id
  other_row e =
      let same : stale ≡ c =
        same_row rows stale.id stale c (In-find_build stale rows d at) (rw e next.present) in
      false≢true
        (sym (one_status c next.is_queued) ∙ ap (has_status running) (sym same) ∙ is_running)

  claimed_row :
      find_build c.id (update_build c.id (start_build now) rows) ≡ some (start_build now c)
  unfolding start_build
  claimed_row =
      ground
        (arith, next.present, find_build-update_build c.id (start_build now) (λ r. refl) c.id rows)

  too_late :
      (j : BuildJob)
      → j.id ≡ c.id
      → find_build j.id (update_build c.id (start_build now) rows) ≡ some j
      → started_key j ≤ started_key stale
      → ⊥
  unfolding started_key start_build
  too_late j e f le =
      let same : j ≡ start_build now c =
        same_row (update_build c.id (start_build now) rows) j.id j (start_build now c) f
          (rw e claimed_row) in
      let key : started_key j ≡ suc now = rw same in
      let key' : started_key stale ≡ suc s = rw (started, started_key) in omega arith

  -- Reading back finds a build that was started no later than the stale one.
  read_back_other :
      (j : BuildJob) × (first_running (update_build c.id (start_build now) rows) ≡ some j)
      × (j.id ≢ c.id)
  unfolding first_running
  read_back_other =
      let after = update_build c.id (start_build now) rows in
      let kept : In stale (retain (has_status running) after) =
        retain-In (has_status running) stale after is_running
          (In-update_build c.id (start_build now) stale rows other_row at) in
      let found = earliest-some started_key stale _ kept in
      let inside =
        In-retain (has_status running) found.0 after (In-earliest started_key found.0 _ found.1) in
      (
        found.0,
        found.1,
        λ e.
            too_late found.0 e
              (In-find_build found.0 after
                (update_build-NodupIds c.id (start_build now) (unfold start_build in λ r. refl) rows
                  d)
                inside.1)
              (earliest-le started_key found.0 stale _ found.1 kept),
      )

-- With no statement failing, a running build that was started before makes the claim go wrong: the
-- oldest queued build is set to running, and what the worker gets is another build.
pub get_pending_stale :
    (w : World) (c stale : BuildJob) (s : ℕ)
    → w.faults ≡ []
    → NodupIds w.db.builds
    → next_queued w.db.builds ≡ some c
    → In stale w.db.builds
    → has_status running stale ≡ true
    → stale.started_at ≡ some s
    → s < w.clock
    → let r = get_pending w in
      (find_build c.id r.1.db.builds ≡ some (start_build w.clock c))
      × ((j : BuildJob) × (r.0 ≡ ok (some j)) × (j.id ≢ c.id))
unfolding get_pending query fault claim read_back fetch_one
get_pending_stale w c stale s calm d next at is_running started before =
    let k = next_queued-IsNext w.db.builds c d next in
    let other = read_back_other w.db.builds c stale s w.clock d k at is_running started before in
    (
      ground (arith, claimed_row w.db.builds c stale s w.clock d k at is_running started before),
      (other.0, ground (arith, other.1), other.2),
    )

-- When the claim succeeds and reading it back fails, the worker gets an error, and the oldest queued
-- build is left running.
pub get_pending_lost :
    (w : World) (c : BuildJob) (later : List Bool)
    → w.faults ≡ false ∷ true ∷ later
    → NodupIds w.db.builds
    → next_queued w.db.builds ≡ some c
    → let r = get_pending w in
      (r.0 ≡ err (query_error "database error"))
      × (find_build c.id r.1.db.builds ≡ some (start_build w.clock c))
unfolding get_pending query fault claim read_back start_build
get_pending_lost w c later faulty d next =
    let k = next_queued-IsNext w.db.builds c d next in
    ground (
      arith,
      k.present,
      find_build-update_build c.id (start_build w.clock) (λ r. refl) c.id w.db.builds,
    )
