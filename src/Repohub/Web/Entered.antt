-- ===== src/Repohub/Web/Entered.antt =====
-- repohub/src/web.rs: what a request enters in the tables, and what it is answered with.
pub mod Rows
use procurator.Prelude.{
  ℕ, suc, String, ◌<>◌, ◌≡◌, refl, sym, ap, ◌∙◌, ◌⊎◌, inl, inr, Bool, true, false, Option, none,
  some, List, [], ◌∷◌, ◌++◌, arith, Bool-cases, Result, ok, err, Result-cases, Eff, pure, ◌>>=◌,
  map_error, resume, resume_rule,
}
use procurator.Prelude.Strings.{is_some}
use procurator.RepoOutils.Git.{CommandHost}
use procurator.Repohub.Models.{
  UserRow, ProjectRow, CreateUserRequest, CreateProjectRequest, CreateRepositoryRequest,
}
use procurator.Repohub.Database.{
  SqlxError, Tables, Database, DatabaseError, query, statement, next_fault, find_first, is_user,
  is_project,
}
use procurator.Repohub.Database.Queries
use procurator.Repohub.Database.Queries.{insert_user, insert_project, insert_repository}
use procurator.Repohub.Service.{RepositoryService, create_or_clone_repository}
use procurator.Repohub.Http.{StatusCode, Response, json_id}
use procurator.Repohub.Web.{
  Front, AppState, Chain, on_db, handler, returned, failure, created, owner, project_of,
}
use procurator.Repohub.Web.Lookups.{owner-Reads, project_of-Reads}
use procurator.Repohub.Web.Changes.{create_user, create_project, create_repository, make_repository}
use procurator.Repohub.Web.Entered.Rows.{
  with_user, with_project, with_repository, Adds, create_user-Adds, create_project-Adds,
  create_repository-Adds,
}

module _ (H : CommandHost) where
  -- A refusal with 404 or 500, after which the tables are as given.
  abbrev pub Refusal : Tables → Response → AppState H → Type 0
  Refusal t r s' =
      ((r.status ≡ StatusCode.not_found) ⊎ (r.status ≡ StatusCode.internal_server_error))
      × (s'.db.tables ≡ t)

  -- The answer is 201 with the id, and the tables are the new ones.
  abbrev pub Entry : ℕ → Tables → Response → AppState H → Type 0
  Entry id t r s' =
      (r ≡ record { status = StatusCode.created; body = json_id id }) × (s'.db.tables ≡ t)

  -- The last steps of a handler: the insertion and the answer.
  abbrev insertion : (DatabaseError → String) → Eff Database DatabaseError ℕ → Chain H Response
  insertion text m =
      on_db H (λ e. failure StatusCode.internal_server_error (text e)) m >>= λ id. pure (created id)

  insertion-Entry :
      (text : DatabaseError → String) (m : Eff Database DatabaseError ℕ) (n : ℕ) (t t' : Tables)
      (w : AppState H)
      → Adds n t t' (m w.db)
      → let q = insertion text m w in Refusal t (returned q.0) q.1 ⊎ Entry n t' (returned q.0) q.1
  unfolding on_db returned failure created
  insertion-Entry text m n t t' w (inl (e, p, q)) = inl (ground arith)
  insertion-Entry text m n t t' w (inr (p, q)) = inr (ground arith)

  -- An insertion at a later state with the same tables and time.
  insertion-later :
      (text : DatabaseError → String) (m : Eff Database DatabaseError ℕ) (id : Tables → ℕ)
      (g : String → Tables → Tables) (s w : AppState H)
      → w.db.tables ≡ s.db.tables
      → w.db.now ≡ s.db.now
      → Adds (id w.db.tables) w.db.tables (g w.db.now w.db.tables) (m w.db)
      → let q = insertion text m w in
        Refusal s.db.tables (returned q.0) q.1
        ⊎ Entry (id s.db.tables) (g s.db.now s.db.tables) (returned q.0) q.1
  insertion-later text m id g s w same now adds = elim (insertion-Entry text m _ _ _ w adds) [
    | inl (status, after) ↦ inl (status, after ∙ same)
    | inr (answer, after) ↦ inr (
      answer ∙ ap (λ t. record { status = StatusCode.created; body = json_id (id t) }) same,
      after ∙ (ap (λ n. g n w.db.tables) now ∙ ap (g s.db.now) same),
    )
  ]

  not_found-Refusal :
      (e : Response) (t : Tables) (w : AppState H)
      → e.status ≡ StatusCode.not_found
      → w.db.tables ≡ t
      → Refusal t (returned (err e)) w
  unfolding returned
  not_found-Refusal e t w h k = (inl h, k)

module _ (H : CommandHost) (front : Front) where
  -- A user is entered as requested, or the request is refused.
  pub create_user-Entry :
      (req : CreateUserRequest) (s : AppState H)
      → let q = create_user H front req s in
        let t = s.db.tables in
        Refusal H t q.0 q.1 ⊎ Entry H t.next_user (with_user req s.db.now t) q.0 q.1
  unfolding create_user handler
  create_user-Entry req s =
      insertion-Entry H _ (Queries.create_user req.username req.email) _ _ _ s
        (create_user-Adds req s.db)

  -- A project, for the user of the request's name.
  abbrev pub ProjectEntry :
      String → CreateProjectRequest → AppState H → Response → AppState H → Type 0
  ProjectEntry username req s r s' =
      let t = s.db.tables in
      (u : UserRow) × (find_first (is_user username) t.users ≡ some u)
      × Entry H t.next_project (with_project req u.id s.db.now t) r s'

  pub create_project-Entry :
      (username : String) (req : CreateProjectRequest) (s : AppState H)
      → let q = create_project H front username req s in
        Refusal H s.db.tables q.0 q.1 ⊎ ProjectEntry username req s q.0 q.1
  unfolding create_project handler returned
  create_project-Entry username req s =
      let (t1, _, n1, e1, found) = owner-Reads H front username s in
      let s1 = (owner H front username s).1 in
      resume_rule
        (λ r s'.
          Refusal H s.db.tables (returned r) s' ⊎ ProjectEntry username req s (returned r) s')
        (owner H front username s).0 _ s1
        (λ e q. inl (not_found-Refusal H e s.db.tables s1 (e1 e q) t1))
        λ u q.
          elim (insertion-later H _ (Queries.create_project req.name u.id req.description)
            (λ t. t.next_project) (with_project req u.id) s s1 t1 n1
            (create_project-Adds req u.id s1.db)) [
              | inl refusal ↦ inl refusal
              | inr entry ↦ inr (u, found u q, entry)
            ]

module _ (H : CommandHost) (front : Front) (service : RepositoryService) where
  -- A repository, for the project of the request's name of that user, with the URL that git's work
  -- gave.
  abbrev pub RepositoryEntry :
      String → String → CreateRepositoryRequest → AppState H → Response → AppState H → Type 0
  RepositoryEntry username project req s r s' =
      let t = s.db.tables in
      (u : UserRow) × (p : ProjectRow) × (url : String) × (find_first (is_user username) t.users
        ≡ some u)
      × (find_first (is_project u.id project) t.projects ≡ some p)
      × ((create_or_clone_repository H service username req.name req.git_url s.host).0 ≡ ok url)
      × Entry H t.next_repository (with_repository req p.id url s.db.now t) r s'

  -- Git's work, and what it gave when it did not fail.
  make_repository-Made :
      (username : String) (req : CreateRepositoryRequest) (w : AppState H)
      → let m = make_repository H front service username req w in
        let r = create_or_clone_repository H service username req.name req.git_url w.host in
        (m.1.db ≡ w.db)
        × ((e : Response) → m.0 ≡ err e → e.status ≡ StatusCode.internal_server_error)
        × ((url : String) → m.0 ≡ ok url → r.0 ≡ ok url)
  unfolding make_repository failure
  make_repository-Made username req w = (refl, (λ e h. ground arith), λ url h. ground arith)

  pub create_repository-Entry :
      (username project : String) (req : CreateRepositoryRequest) (s : AppState H)
      → let q = create_repository H front service username project req s in
        Refusal H s.db.tables q.0 q.1 ⊎ RepositoryEntry username project req s q.0 q.1
  unfolding create_repository handler returned
  create_repository-Entry username project req s =
      let Q : Result Response Response → AppState H → Type 0 = λ r s'.
        Refusal H s.db.tables (returned r) s'
        ⊎ RepositoryEntry username project req s (returned r) s' in
      let (t1, h1, n1, e1, found1) = owner-Reads H front username s in
      let s1 = (owner H front username s).1 in
      resume_rule Q (owner H front username s).0 _ s1
        (λ e q. inl (not_found-Refusal H e s.db.tables s1 (e1 e q) t1))
        λ u q1.
          let (t2, h2, n2, e2, found2) = project_of-Reads H front u.id project s1 in
          let s2 = (project_of H front u.id project s1).1 in
          resume_rule Q (project_of H front u.id project s1).0 _ s2
            (λ e q. inl (not_found-Refusal H e s.db.tables s2 (e2 e q) (t2 ∙ t1)))
            λ p q2.
              let (d3, e3, made) = make_repository-Made username req s2 in
              let s3 = (make_repository H front service username req s2).1 in
              resume_rule Q (make_repository H front service username req s2).0 _ s3
                (λ e q. inl (inr (e3 e q), ap (λ d. d.tables) d3 ∙ (t2 ∙ t1)))
                λ url q3.
                  elim (insertion-later H _ (Queries.create_repository p.id req.name url)
                    (λ t. t.next_repository) (with_repository req p.id url) s s3
                    (ap (λ d. d.tables) d3 ∙ (t2 ∙ t1)) (ap (λ d. d.now) d3 ∙ (n2 ∙ n1))
                    (create_repository-Adds req p.id url s3.db)) [
                      | inl refusal ↦ inl refusal
                      | inr entry ↦ inr (
                        u,
                        p,
                        url,
                        found1 u q1,
                        ap (λ t. find_first (is_project u.id project) t.projects) (sym t1)
                            ∙ found2 p q2,
                        ap
                              (λ h.
                                (create_or_clone_repository H service username req.name req.git_url
                                  h).0)
                              (sym (h2 ∙ h1))
                            ∙ made url q3,
                        entry,
                      )
                    ]
