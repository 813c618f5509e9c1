-- ===== src/Repohub/Web/Lookups.antt =====
-- repohub/src/web.rs: the user and the project that a handler looks up first.
use procurator.Prelude.{ℕ, String, ◌≡◌, inl, inr, some, arith, Bool-cases, ok, err}
use procurator.RepoOutils.Git.{CommandHost}
use procurator.Repohub.Database.{statement, next_fault, fetched, find_first, is_user, is_project}
use procurator.Repohub.Database.Queries
use procurator.Repohub.Http.{StatusCode, Response}
use procurator.Repohub.Web.{Front, AppState, Chain, on_db, failure, owner, project_of}

module _ (H : CommandHost) (front : Front) where
  -- A chain that only reads: the tables, the host and the time stay, its refusals are 404, and what
  -- it gives meets a condition.
  abbrev pub Reads : {A : Type 0} → Chain H A → AppState H → (A → Type 0) → Type 0
  Reads {A = A} m s Found =
      ((m s).1.db.tables ≡ s.db.tables)
      × ((m s).1.host ≡ s.host)
      × ((m s).1.db.now ≡ s.db.now)
      × ((e : Response) → (m s).0 ≡ err e → e.status ≡ StatusCode.not_found)
      × ((a : A) → (m s).0 ≡ ok a → Found a)

  pub owner-Reads :
      (username : String) (s : AppState H)
      → Reads
          (owner H front username)
          s
          (λ u. find_first (is_user username) s.db.tables.users ≡ some u)
  unfolding owner on_db Queries.get_user_by_username statement failure fetched
  owner-Reads username s = elim (Bool-cases (next_fault s.db.faults)) [
    | inl e ↦ (ground arith, ground arith, ground arith, (λ r h. ground arith), λ u h. ground arith)
    | inr e ↦ (ground arith, ground arith, ground arith, (λ r h. ground arith), λ u h. ground arith)
  ]

  pub project_of-Reads :
      (owner_id : ℕ) (name : String) (s : AppState H)
      → Reads
          (project_of H front owner_id name)
          s
          (λ p. find_first (is_project owner_id name) s.db.tables.projects ≡ some p)
  unfolding project_of on_db Queries.get_project statement failure fetched
  project_of-Reads owner_id name s = elim (Bool-cases (next_fault s.db.faults)) [
    | inl e ↦ (ground arith, ground arith, ground arith, (λ r h. ground arith), λ p h. ground arith)
    | inr e ↦ (ground arith, ground arith, ground arith, (λ r h. ground arith), λ p h. ground arith)
  ]
