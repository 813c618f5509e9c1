-- ===== src/Repohub/Web/Made.antt =====
-- repohub/src/web.rs: a request for a repository whose user and project are there and for which git
-- does its work.
use procurator.Prelude.{
  ℕ, suc, String, ◌<>◌, ◌≡◌, refl, ap, ◌∙◌, Bool, true, false, Option, none, some, List, [], ◌∷◌,
  ◌++◌, arith, ◌==◌, eq_iff, ok, pure, ◌>>=◌,
}
use procurator.Prelude.Strings.{is_some}
use procurator.RepoOutils.Git.{CommandHost, bare_repo_path}
use procurator.Repohub.Models.{
  CreateRepositoryRequest, UserRow, ProjectRow, RepositoryRow, repository_from,
}
use procurator.Repohub.Database.{
  statement, next_fault, rest_faults, fetched, find_first, is_user, is_project, is_repository,
  has_project,
}
use procurator.Repohub.Database.Queries
use procurator.Repohub.Database.Rows.{find_first-append}
use procurator.Repohub.Service.{RepositoryService, get_repo_path, create_or_clone_repository}
use procurator.Repohub.Service.Existing.{MakesRepositories, create_or_clone-exists}
use procurator.Repohub.Http.{Template, StatusCode, Response, json_id}
use procurator.Repohub.Web.{
  Front, AppState, on_db, handler, returned, failure, created, owner, project_of, page_project,
  html_template, show_error,
}
use procurator.Repohub.Web.Changes.{make_repository, create_repository}
use procurator.Repohub.Web.Pages.{repo}
use procurator.Repohub.Web.Names.{AllRefused, IsTaken-AllRefused}

-- One statement fewer is ahead.
abbrev next_statement : {H : CommandHost} → AppState H → AppState H
next_statement s = record s { db = record s.db { faults = rest_faults s.db.faults } }

-- The state after git, and the answer to it.
abbrev with_host : {H : CommandHost} → AppState H → H.World → AppState H
with_host s w = record s { host = w }

-- A row that one query finds is found by any other whose condition it meets.
find_first-other :
    {A : Type 0} (p q : A → Bool) (xs : List A) (y : A)
    → find_first p xs ≡ some y
    → q y ≡ true
    → is_some (find_first q xs) ≡ true
unfolding find_first is_some
find_first-other p q [] y h k = absurd (cc h)
find_first-other p q (x ∷ xs) y h k = ground (arith, find_first-other p q xs y)

module _ (H : CommandHost) (front : Front) (s : AppState H)
    (calm : next_fault s.db.faults ≡ false) where
  owner-found :
      (username : String) (u : UserRow)
      → find_first (is_user username) s.db.tables.users ≡ some u
      → owner H front username s ≡ (ok u, next_statement s)
  unfolding owner on_db Queries.get_user_by_username statement fetched
  owner-found username u h = rw (calm, h) refl

  project_of-found :
      (owner_id : ℕ) (name : String) (p : ProjectRow)
      → find_first (is_project owner_id name) s.db.tables.projects ≡ some p
      → project_of H front owner_id name s ≡ (ok p, next_statement s)
  unfolding project_of on_db Queries.get_project statement fetched
  project_of-found owner_id name p h = rw (calm, h) refl

module _ (H : CommandHost) (front : Front) (service : RepositoryService) (username project : String)
    (req : CreateRepositoryRequest) (s : AppState H) (u : UserRow) (p : ProjectRow) (url : String)
    (has_user : find_first (is_user username) s.db.tables.users ≡ some u)
    (has_its_project : find_first (is_project u.id project) s.db.tables.projects ≡ some p)
    (made : (create_or_clone_repository H service username req.name req.git_url s.host).0
      ≡ ok url) where
  abbrev host_after : H.World
  host_after = (create_or_clone_repository H service username req.name req.git_url s.host).1

  -- The insertion, which is what is left to do.
  abbrev entered : AppState H → Response × AppState H
  entered w =
      handler H
        (on_db H
            (λ e.
              failure StatusCode.internal_server_error
                ("Failed to create repository: " <> show_error front e))
            (Queries.create_repository p.id req.name url)
          >>= λ id. pure (created id))
        w

  create_repository-entered :
      next_fault s.db.faults ≡ false
      → next_fault (rest_faults s.db.faults) ≡ false
      → create_repository H front service username project req s
        ≡ entered (with_host (next_statement (next_statement s)) host_after)
  unfolding create_repository make_repository handler
  create_repository-entered c1 c2 =
      rw
        (
          owner-found H front s c1 username u has_user,
          project_of-found H front (next_statement s) c2 u.id project p has_its_project,
          made,
        )
        refl

  has_project-found : has_project p.id s.db.tables ≡ true
  unfolding has_project
  has_project-found =
      find_first-other (is_project u.id project) (λ (r : ProjectRow). r.id == p.id)
        s.db.tables.projects p has_its_project (ground arith)

  -- A statement that fails at the insertion.
  entered_failed :
      (w : AppState H)
      → next_fault w.db.faults ≡ true
      → ((entered w).0.status ≡ StatusCode.internal_server_error)
        × ((entered w).1.db.tables ≡ w.db.tables)
        × ((entered w).1.host ≡ w.host)
  unfolding handler returned on_db Queries.create_repository statement failure
  entered_failed w h = rw h (refl, refl, refl)

  abbrev row : RepositoryRow
  row = record {
    id = s.db.tables.next_repository;
    project_id = p.id;
    name = req.name;
    git_url = url;
    created_at = s.db.now;
  }

  abbrev with_row : AppState H
  with_row = record {
    db = record s.db {
      tables = record s.db.tables {
        repositories = s.db.tables.repositories ++ (row ∷ []);
        next_repository = suc s.db.tables.next_repository;
      };
      faults = [];
    };
    host = host_after;
  }

  entered_done :
      find_first (is_repository p.id req.name) s.db.tables.repositories ≡ none
      → entered (record { db = record s.db { faults = [] }; host = host_after })
        ≡ (created s.db.tables.next_repository, with_row)
  unfolding handler returned on_db Queries.create_repository Queries.insert_repository statement
      next_fault rest_faults is_some
  entered_done fresh = rw (fresh, has_project-found) refl

  is_there :
      MakesRepositories H
      → H.exists_path (bare_repo_path (get_repo_path H service username req.name)) host_after ≡ true
  unfolding create_or_clone_repository
  is_there laws =
      create_or_clone-exists H service laws (get_repo_path H service username req.name) req.git_url
        s.host url made

  -- A request for a repository whose user and project are there and which git has made, while the
  -- database fails at the insertion: it is answered with 500 and enters nothing, and all later
  -- requests of this user for a repository of this name are refused and enter nothing. Assumed is
  -- that git makes what it reports, and that making directories removes nothing.
  pub create_repository_orphan :
      (laws : MakesRepositories H) (later : List Bool) (rs : List (String × Option String))
      → s.db.faults ≡ false ∷ false ∷ true ∷ later
      → let r = create_repository H front service username project req s in
        (r.0.status ≡ StatusCode.internal_server_error)
        × (r.1.db.tables ≡ s.db.tables)
        × AllRefused H front service laws username req.name rs r.1
  unfolding next_fault rest_faults
  create_repository_orphan laws later rs faults =
      let c1 : next_fault s.db.faults ≡ false = rw faults refl in
      let c2 : next_fault (rest_faults s.db.faults) ≡ false = rw faults refl in
      let c3 : next_fault (rest_faults (rest_faults s.db.faults)) ≡ true = rw faults refl in
      let s3 = with_host (next_statement (next_statement s)) host_after in
      let (status, tables, host) = entered_failed s3 c3 in
      let path = bare_repo_path (get_repo_path H service username req.name) in
      rw (create_repository-entered c1 c2) (
        status,
        tables,
        IsTaken-AllRefused H front service laws username req.name rs _
            (ap (H.exists_path path) host ∙ is_there laws),
      )

  create_repository-done :
      s.db.faults ≡ []
      → find_first (is_repository p.id req.name) s.db.tables.repositories ≡ none
      → create_repository H front service username project req s
        ≡ (created s.db.tables.next_repository, with_row)
  unfolding next_fault rest_faults
  create_repository-done calm fresh =
      create_repository-entered (rw calm refl) (rw calm refl)
      ∙ ap
          (λ fs. entered (record {
            db = record s.db { faults = rest_faults (rest_faults fs) };
            host = host_after;
          }))
          calm
      ∙ entered_done fresh

  -- The query of the new row.
  found-row :
      find_first (is_repository p.id req.name) s.db.tables.repositories ≡ none
      → find_first (is_repository p.id req.name) (s.db.tables.repositories ++ (row ∷ [])) ≡ some row
  found-row fresh = ground (
    arith,
    find_first-append (is_repository p.id req.name) s.db.tables.repositories row,
    eq_iff req.name req.name,
  )

  shown :
      find_first (is_repository p.id req.name) s.db.tables.repositories ≡ none
      → (repo H front username project req.name with_row).0
        ≡ html_template front (
            Template.repository
              (record { username = username; project_name = project; repo = repository_from row }))
  unfolding repo page_project on_db Queries.get_user_by_username Queries.get_project
      Queries.get_repository statement fetched handler returned next_fault rest_faults
  shown fresh = rw (has_user, has_its_project, found-row fresh) refl

  -- A request for a repository whose user and project are there, which git has made, and whose name
  -- is new in the project, while no statement fails: it is answered with 201 and the next id, and the
  -- page of the repository then shows it, with the URL that is stored.
  pub repo-create_repository :
      s.db.faults ≡ []
      → find_first (is_repository p.id req.name) s.db.tables.repositories ≡ none
      → let r = create_repository H front service username project req s in
        (r.0 ≡ record { status = StatusCode.created; body = json_id s.db.tables.next_repository })
        × ((repo H front username project req.name r.1).0
            ≡ html_template front (
                Template.repository (record {
                  username = username;
                  project_name = project;
                  repo = record {
                    id = s.db.tables.next_repository;
                    project_id = p.id;
                    name = req.name;
                    git_url = url;
                    created_at = s.db.now;
                  };
                })))
  unfolding created repository_from
  repo-create_repository calm fresh = rw (create_repository-done calm fresh) (refl, shown fresh)
