-- ===== src/Repohub/Web/Names.antt =====
-- repohub/src/web.rs: names of repositories. A bare repository is found by its user and its name,
-- while the table of repositories has one name for each project.
use procurator.Prelude.{
  String, ◌≡◌, refl, ap, ◌∙◌, ◌≢◌, inl, inr, true, Option, List, [], ◌∷◌, arith, Result, ok, err,
  Result-cases, resume, resume_rule, Eff,
}
use procurator.RepoOutils.Git.{CommandHost, bare_repo_path}
use procurator.Repohub.Models.{CreateRepositoryRequest}
use procurator.Repohub.Database.{Tables, Database, DatabaseError}
use procurator.Repohub.Database.Queries
use procurator.Repohub.Service.{
  RepositoryService, get_repo_path, create_or_clone, create_or_clone_repository,
}
use procurator.Repohub.Service.Existing.{
  MakesRepositories, create_or_clone-exists, create_or_clone_taken,
}
use procurator.Repohub.Http.{StatusCode, Response}
use procurator.Repohub.Web.{
  Front, AppState, Chain, on_db, handler, returned, failure, owner, project_of,
}
use procurator.Repohub.Web.Lookups.{owner-Reads, project_of-Reads}
use procurator.Repohub.Web.Changes.{make_repository, create_repository}

module _ (H : CommandHost) (front : Front) (service : RepositoryService)
    (laws : MakesRepositories H) where
  -- There is a bare repository of this user and name.
  abbrev pub IsTaken : String → String → AppState H → Type 0
  IsTaken username name s =
      H.exists_path (bare_repo_path (get_repo_path H service username name)) s.host ≡ true

  abbrev Refused : String → String → Tables → Result Response Response → AppState H → Type 0
  Refused username name t r w =
      ((returned r).status ≢ StatusCode.created) × (w.db.tables ≡ t) × IsTaken username name w

  err-Refused :
      (username name : String) (t : Tables) (e : Response) (w : AppState H)
      → e.status ≢ StatusCode.created
      → w.db.tables ≡ t
      → IsTaken username name w
      → Refused username name t (err e) w
  unfolding returned
  err-Refused username name t e w h k taken = (h, k, taken)

  make_repository-Refused :
      (username : String) (req : CreateRepositoryRequest) (t : Tables) (w : AppState H)
      (f : String → Chain H Response)
      → w.db.tables ≡ t
      → IsTaken username req.name w
      → let m = make_repository H front service username req w in
        Refused username req.name t (resume m.0 f m.1).0 (resume m.0 f m.1).1
  unfolding make_repository create_or_clone_repository failure
  make_repository-Refused username req t w f h taken =
      let path = get_repo_path H service username req.name in
      let after = create_or_clone H service path req.git_url w.host in
      let (none_made, kept) = create_or_clone_taken H service laws path req.git_url w.host taken in
      elim (Result-cases after.0) [
        | inl (stored, e) ↦ absurd (none_made stored e)
        | inr (x, e) ↦
            rw e
              (err-Refused username req.name t _ (record w { host = after.1 }) (λ q. cc q) h kept)
      ]

  not_found-ne : (e : Response) → e.status ≡ StatusCode.not_found → e.status ≢ StatusCode.created
  not_found-ne e h k = cc (h, k)

  create_repository-Refused :
      (username project : String) (req : CreateRepositoryRequest) (s : AppState H)
      → IsTaken username req.name s
      → let r = create_repository H front service username project req s in
        (r.0.status ≢ StatusCode.created)
        × (r.1.db.tables ≡ s.db.tables)
        × IsTaken username req.name r.1
  unfolding create_repository handler
  create_repository-Refused username project req s taken =
      let name = req.name in
      let (t1, h1, _, e1, _) = owner-Reads H front username s in
      let s1 = (owner H front username s).1 in
      let taken1 : IsTaken username name s1 =
        ap (H.exists_path (bare_repo_path (get_repo_path H service username name))) h1 ∙ taken in
      resume_rule (Refused username name s.db.tables) (owner H front username s).0 _ s1
        (λ e q. err-Refused username name s.db.tables e s1 (not_found-ne e (e1 e q)) t1 taken1)
        λ u q.
          let (t2, h2, _, e2, _) = project_of-Reads H front u.id project s1 in
          let s2 = (project_of H front u.id project s1).1 in
          let taken2 : IsTaken username name s2 =
            ap (H.exists_path (bare_repo_path (get_repo_path H service username name))) h2
            ∙ taken1 in
          resume_rule (Refused username name s.db.tables) (project_of H front u.id project s1).0 _
            s2
            (λ e q.
              err-Refused username name s.db.tables e s2 (not_found-ne e (e2 e q)) (t2 ∙ t1) taken2)
            (λ p q. make_repository-Refused username req s.db.tables s2 _ (t2 ∙ t1) taken2)

  -- Requests of one user for a repository of one name, each with its project and its remote, are all
  -- refused, one after the other, and enter nothing.
  abbrev pub AllRefused : String → String → List (String × Option String) → AppState H → Type 0
  AllRefused username name [] s = Unit
  AllRefused username name ((project, git_url) ∷ rs) s =
      let req : CreateRepositoryRequest = record { name = name; git_url = git_url } in
      let r = create_repository H front service username project req s in
      (r.0.status ≢ StatusCode.created)
      × (r.1.db.tables ≡ s.db.tables)
      × AllRefused username name rs r.1

  pub IsTaken-AllRefused :
      (username name : String) (rs : List (String × Option String)) (s : AppState H)
      → IsTaken username name s
      → AllRefused username name rs s
  IsTaken-AllRefused username name [] s taken = tt
  IsTaken-AllRefused username name ((project, git_url) ∷ rs) s taken =
      let req : CreateRepositoryRequest = record { name = name; git_url = git_url } in
      let (refused, kept, taken') = create_repository-Refused username project req s taken in
      (refused, kept, IsTaken-AllRefused username name rs _ taken')

  make_repository-IsTaken :
      (username : String) (req : CreateRepositoryRequest) (s : AppState H) (stored : String)
      → (make_repository H front service username req s).0 ≡ ok stored
      → IsTaken username req.name (make_repository H front service username req s).1
  unfolding make_repository create_or_clone_repository
  make_repository-IsTaken username req s stored h =
      let path = get_repo_path H service username req.name in
      elim (Result-cases (create_or_clone H service path req.git_url s.host).0) [
        | inl (url, e) ↦ create_or_clone-exists H service laws path req.git_url s.host url e
        | inr (x, e) ↦ ground arith
      ]

  on_db-host :
      {A : Type 0} (f : DatabaseError → Response) (m : Eff Database DatabaseError A)
      (g : A → Chain H Response) (s : AppState H)
      → ((a : A) (w : AppState H) → (g a w).1.host ≡ w.host)
      → (resume (on_db H f m s).0 g (on_db H f m s).1).1.host ≡ s.host
  unfolding on_db
  on_db-host f m g s h = elim (Result-cases (m s.db).0) [
    | inl (a, e) ↦ rw e (h a _)
    | inr (x, e) ↦ rw e refl
  ]

  abbrev Created : String → String → Result Response Response → AppState H → Type 0
  Created username name r w = (returned r).status ≡ StatusCode.created → IsTaken username name w

  err-Created :
      (username name : String) (e : Response) (w : AppState H)
      → e.status ≡ StatusCode.not_found
      → Created username name (err e) w
  unfolding returned
  err-Created username name e w h k = absurd (not_found-ne e h k)

  make_repository-err :
      (username : String) (req : CreateRepositoryRequest) (s : AppState H) (x : Response)
      → (make_repository H front service username req s).0 ≡ err x
      → x.status ≢ StatusCode.created
  unfolding make_repository create_or_clone_repository failure
  make_repository-err username req s x h =
      let path = get_repo_path H service username req.name in
      elim (Result-cases (create_or_clone H service path req.git_url s.host).0) [
        | inl (url, e) ↦ ground arith
        | inr (y, e) ↦ ground arith
      ]

  make_repository-Created :
      (username : String) (req : CreateRepositoryRequest) (s : AppState H)
      (g : String → Chain H Response)
      → ((url : String) (w : AppState H) → (g url w).1.host ≡ w.host)
      → let m = make_repository H front service username req s in
        Created username req.name (resume m.0 g m.1).0 (resume m.0 g m.1).1
  make_repository-Created username req s g h =
      let path = get_repo_path H service username req.name in
      let m = make_repository H front service username req s in
      resume_rule (Created username req.name) m.0 g m.1
        (λ x e k. absurd (make_repository-err username req s x e (unfold returned in k)))
        λ url e k.
          ap (H.exists_path (bare_repo_path path)) (h url m.1)
          ∙ make_repository-IsTaken username req s url e

  created-IsTaken :
      (username project : String) (req : CreateRepositoryRequest) (s : AppState H)
      → let r = create_repository H front service username project req s in
        r.0.status ≡ StatusCode.created → IsTaken username req.name r.1
  unfolding create_repository handler
  created-IsTaken username project req s =
      let name = req.name in
      let (t1, h1, _, e1, _) = owner-Reads H front username s in
      let s1 = (owner H front username s).1 in
      resume_rule (Created username name) (owner H front username s).0 _ s1
        (λ e q. err-Created username name e s1 (e1 e q))
        λ u q.
          let (t2, h2, _, e2, _) = project_of-Reads H front u.id project s1 in
          let s2 = (project_of H front u.id project s1).1 in
          resume_rule (Created username name) (project_of H front u.id project s1).0 _ s2
            (λ e q. err-Created username name e s2 (e2 e q))
            λ p q.
              make_repository-Created username req s2 _
                λ url w. on_db-host _ (Queries.create_repository p.id name url) _ w (λ id v. refl)

  -- After a request of a user for a repository was answered with 201, all later requests of this
  -- user for a repository of this name are refused and enter nothing, also those for other projects,
  -- where the table has no repository of the name. Assumed is that git makes what it reports, and
  -- that making directories removes nothing.
  pub create_repository_once :
      (username project : String) (req : CreateRepositoryRequest) (s : AppState H)
      (rs : List (String × Option String))
      → let r = create_repository H front service username project req s in
        r.0.status ≡ StatusCode.created → AllRefused username req.name rs r.1
  create_repository_once username project req s rs h =
      IsTaken-AllRefused username req.name rs _ (created-IsTaken username project req s h)
