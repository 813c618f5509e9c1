-- ===== src/Ci/Api/Created.antt =====
-- api.rs: what a request for a build leads to.
use procurator.Prelude.{
  ℕ, String, ◌≡◌, refl, ◌≢◌, none, some, List, [], ◌∷◌, ◌++◌, arith, ok, ap, ◌∙◌,
}
use procurator.Ci.Builds.{queued, BuildJob, from_str, lower, as_str, build_info}
use procurator.Ci.Rows.{find_build}
use procurator.Ci.Queue.{World, query, fault, enqueue, new_build, or_not_found}
use procurator.Ci.Queue
use procurator.Ci.Api.{BuildRequest, accepted, branch_of, create_build, get_build}

find_build-new :
    (b : BuildJob) (rows : List BuildJob)
    → find_build b.id rows ≡ none
    → find_build b.id (rows ++ (b ∷ [])) ≡ some b
unfolding find_build
find_build-new b [] h = ground arith
find_build-new b (r ∷ rows) h = ground (arith, find_build-new b rows)

find_build-others :
    (j : ℕ) (b : BuildJob) (rows : List BuildJob)
    → j ≢ b.id
    → find_build j (rows ++ (b ∷ [])) ≡ find_build j rows
unfolding find_build
find_build-others j b [] ne = ground arith
find_build-others j b (r ∷ rows) ne = ground (arith, find_build-others j b rows ne)

module _ (decimal_text : ℕ → String) (w : World) (calm : w.faults ≡ []) where
  get_build-found :
      (id : ℕ) (b : BuildJob)
      → find_build id w.db.builds ≡ some b
      → (get_build decimal_text id w).0 ≡ ok (build_info b)
  unfolding get_build Queue.get_build or_not_found query fault
  get_build-found id b h = ground arith

  get_build-same :
      (id : ℕ) (v : World)
      → v.faults ≡ []
      → find_build id v.db.builds ≡ find_build id w.db.builds
      → (get_build decimal_text id v).0 ≡ (get_build decimal_text id w).0
  unfolding get_build Queue.get_build or_not_found query fault
  get_build-same id v quiet h = ground arith

  create_build-row :
      (req : BuildRequest) (now : ℕ)
      → let b =
          new_build w.db.next_id req.bare_repo_path req.new_rev (branch_of req.ref_name) now in
        let r = create_build decimal_text req now w in
        (r.0 ≡ ok (accepted, record { id = w.db.next_id; status = queued }))
        × (r.1.faults ≡ [])
        × (r.1.db.builds ≡ w.db.builds ++ (b ∷ []))
  unfolding create_build enqueue query fault
  create_build-row req now = ground arith

build_info-new :
    (id : ℕ) (path commit branch : String) (now : ℕ)
    → build_info (new_build id path commit branch now) ≡ record {
      id = id;
      repo_path = path;
      commit_hash = commit;
      branch = branch;
      status = queued;
      retry_count = 0;
    }
unfolding build_info new_build from_str lower as_str
build_info-new id path commit branch now = refl

-- When no statement fails and the next id is in no row, a request for a build is accepted as queued
-- under the next id. A request for that build then gives it back with the repository, the commit and
-- the branch of the request, queued and not retried yet, and a request for another id is answered as
-- before.
pub get_build-create_build :
    (decimal_text : ℕ → String) (w : World) (req : BuildRequest) (now j : ℕ)
    → w.faults ≡ []
    → find_build w.db.next_id w.db.builds ≡ none
    → j ≢ w.db.next_id
    → let r = create_build decimal_text req now w in
      (r.0 ≡ ok (accepted, record { id = w.db.next_id; status = queued }))
      × ((get_build decimal_text w.db.next_id r.1).0
          ≡ ok record {
            id = w.db.next_id;
            repo_path = req.bare_repo_path;
            commit_hash = req.new_rev;
            branch = branch_of req.ref_name;
            status = queued;
            retry_count = 0;
          })
      × ((get_build decimal_text j r.1).0 ≡ (get_build decimal_text j w).0)
unfolding new_build
get_build-create_build decimal_text w req now j calm fresh other = (
  (create_build-row decimal_text w calm req now).0,
  made,
  get_build-same decimal_text w calm j after (create_build-row decimal_text w calm req now).1
      (ap (find_build j) rows ∙ others),
)
  where
    b : BuildJob
    b = new_build w.db.next_id req.bare_repo_path req.new_rev (branch_of req.ref_name) now

    after : World
    after = (create_build decimal_text req now w).1

    rows : after.db.builds ≡ w.db.builds ++ (b ∷ [])
    rows = (create_build-row decimal_text w calm req now).2

    others : find_build j (w.db.builds ++ (b ∷ [])) ≡ find_build j w.db.builds
    others = find_build-others j b w.db.builds other

    found : find_build w.db.next_id after.db.builds ≡ some b
    found = ap (find_build w.db.next_id) rows ∙ find_build-new b w.db.builds fresh

    made :
        (get_build decimal_text w.db.next_id after).0
        ≡ ok record {
          id = w.db.next_id;
          repo_path = req.bare_repo_path;
          commit_hash = req.new_rev;
          branch = branch_of req.ref_name;
          status = queued;
          retry_count = 0;
        }
    made =
        get_build-found decimal_text after (create_build-row decimal_text w calm req now).1
          w.db.next_id b found
        ∙ ap ok (
            build_info-new w.db.next_id req.bare_repo_path req.new_rev (branch_of req.ref_name) now)
