-- ===== src/Repohub/Web/Kept/Chains.antt =====
-- repohub/src/web.rs: what a handler keeps of the tables, step by step.
use procurator.Prelude.{
  ℕ, String, inl, inr, Option, Bool-cases, Result, Eff, pure, ◌>>=◌, map_error, resume_keeps,
}
use procurator.RepoOutils.Git.{CommandHost}
use procurator.RepoOutils.Flake.{FlakeJson}
use procurator.Repohub.Models.{CreateRepositoryRequest}
use procurator.Repohub.Database.{Tables, SqlxError, Database, DatabaseError, statement, next_fault}
use procurator.Repohub.Database.Queries
use procurator.Repohub.Database.Valid.{
  IsValid, statement-IsValid, insert_user-IsValid, insert_project-IsValid,
  insert_repository-IsValid,
}
use procurator.Repohub.Service.{RepositoryService}
use procurator.Repohub.Http.{Response}
use procurator.Repohub.Web.{Front, AppState, Chain, on_db, handler, owner, project_of, page_project}
use procurator.Repohub.Web.Pages
use procurator.Repohub.Web.Changes
use procurator.Repohub.Web.Routes.{
  Route, index, create_user, user, create_project, project, create_repository, testing,
  configuration, save_configuration, repo, builds, repo_flake, serve,
}

-- A query of the database keeps a property of its tables.
record Harmless (P : Tables → Type 0) {A : Type 0} (m : Eff Database DatabaseError A) : Type 0 where
  apply : (d : Database) → P d.tables → P (m d).1.tables

module _ (H : CommandHost) (P : Tables → Type 0) where
  -- So does a chain.
  record Keeps {A : Type 0} (m : Chain H A) : Type 0 where
    apply : (s : AppState H) → P s.db.tables → P (m s).1.db.tables

  on_db-Keeps :
      {A : Type 0} (f : DatabaseError → Response) (m : Eff Database DatabaseError A)
      → Harmless P m
      → Keeps (on_db H f m)
  unfolding on_db
  on_db-Keeps f m h = record { apply = λ s v. h.apply s.db v }

  then-Keeps :
      {A B : Type 0} (m : Chain H A) (f : A → Chain H B)
      → Keeps m
      → ((a : A) → Keeps (f a))
      → Keeps (m >>= f)
  then-Keeps m f h k = record {
    apply = λ s v.
        resume_keeps (λ (w : AppState H). P w.db.tables) (m s).0 f (m s).1 (h.apply s v)
          (λ a. (k a).apply (m s).1);
  }

  pure-Keeps : {A : Type 0} (a : A) → Keeps (pure a)
  pure-Keeps a = record { apply = λ s v. v }

  handler-Keeps :
      (m : Chain H Response) (s : AppState H)
      → Keeps m
      → P s.db.tables
      → P (handler H m s).1.db.tables
  unfolding handler
  handler-Keeps m s h v = h.apply s v

  select-Harmless :
      {A : Type 0} (f : Tables → Result A SqlxError) (g : SqlxError → DatabaseError)
      → Harmless P (map_error g (statement (λ t. (f t, t))))
  unfolding statement
  select-Harmless f g = record {
    apply = λ d v. elim (Bool-cases (next_fault d.faults)) [ inl e ↦ rw e v | inr e ↦ rw e v ];
  }

  -- A query that only reads, in a handler.
  select-Keeps :
      {A : Type 0} (f : Tables → Result A SqlxError) (g : SqlxError → DatabaseError)
      (h : DatabaseError → Response)
      → Keeps (on_db H h (map_error g (statement (λ t. (f t, t)))))
  select-Keeps f g h = on_db-Keeps h _ (select-Harmless f g)

module _ (H : CommandHost) where
  create_user-Keeps :
      (username : String) (email : Option String) (h : DatabaseError → Response)
      → Keeps H IsValid (on_db H h (Queries.create_user username email))
  unfolding on_db Queries.create_user
  create_user-Keeps username email h = record {
    apply = λ s v.
        statement-IsValid _ s.db v (insert_user-IsValid username email s.db.now s.db.tables v);
  }

  create_project-Keeps :
      (name : String) (owner_id : ℕ) (description : Option String) (h : DatabaseError → Response)
      → Keeps H IsValid (on_db H h (Queries.create_project name owner_id description))
  unfolding on_db Queries.create_project
  create_project-Keeps name owner_id description h = record {
    apply = λ s v.
        statement-IsValid _ s.db v
          (insert_project-IsValid name owner_id description s.db.now s.db.tables v);
  }

  create_repository-Keeps :
      (project_id : ℕ) (name git_url : String) (h : DatabaseError → Response)
      → Keeps H IsValid (on_db H h (Queries.create_repository project_id name git_url))
  unfolding on_db Queries.create_repository
  create_repository-Keeps project_id name git_url h = record {
    apply = λ s v.
        statement-IsValid _ s.db v
          (insert_repository-IsValid project_id name git_url s.db.now s.db.tables v);
  }

ruleset chains = (
  then-Keeps, pure-Keeps, select-Keeps, create_user-Keeps, create_project-Keeps,
  create_repository-Keeps,
)

module _ (H : CommandHost) (front : Front) (P : Tables → Type 0) where
  owner-Keeps : (username : String) → Keeps H P (owner H front username)
  unfolding owner Queries.get_user_by_username
  owner-Keeps username = search chains

  project_of-Keeps : (owner_id : ℕ) (name : String) → Keeps H P (project_of H front owner_id name)
  unfolding project_of Queries.get_project
  project_of-Keeps owner_id name = search chains

  page_project-Keeps : (username name : String) → Keeps H P (page_project H front username name)
  unfolding page_project Queries.get_user_by_username Queries.get_project
  page_project-Keeps username name = search chains

  listed_or_none-Keeps : (project_id : ℕ) → Keeps H P (Pages.listed_or_none H front project_id)
  unfolding Pages.listed_or_none Queries.list_repositories_by_project
  listed_or_none-Keeps project_id = record {
    apply = λ s v. (select-Harmless H P _ DatabaseError.query).apply s.db v;
  }

module _ (H : CommandHost) (front : Front) (service : RepositoryService) (P : Tables → Type 0) where
  make_repository-Keeps :
      (username : String) (req : CreateRepositoryRequest)
      → Keeps H P (Changes.make_repository H front service username req)
  unfolding Changes.make_repository
  make_repository-Keeps username req = record { apply = λ s v. v }

ruleset steps = (
  chains, owner-Keeps, project_of-Keeps, page_project-Keeps, listed_or_none-Keeps,
  make_repository-Keeps,
)

module _ (H : CommandHost) (front : Front) (service : RepositoryService) {F64 Value : Type 0}
    (json : FlakeJson F64 Value) where
  -- A request that makes nothing in the database.
  abbrev IsPage : Route F64 → Type 0
  IsPage (create_user req) = ⊥
  IsPage (create_project username req) = ⊥
  IsPage (create_repository username name req) = ⊥
  IsPage _ = Unit

  pub page-Keeps :
      (P : Tables → Type 0) (r : Route F64) (s : AppState H)
      → IsPage r
      → P s.db.tables
      → P (serve H front service json r s).1.db.tables
  unfolding serve Pages.index Queries.list_users Pages.user Queries.get_user_by_username
      Queries.list_projects_by_owner Pages.project Queries.list_repositories_by_project Pages.repo
      Queries.get_repository Pages.configuration Pages.testing Changes.save_configuration
      Pages.builds Pages.repo_flake
  page-Keeps P index s is v = handler-Keeps H P _ s (search steps) v
  page-Keeps P (create_user req) s is v = absurd is
  page-Keeps P (user username) s is v = handler-Keeps H P _ s (search steps) v
  page-Keeps P (create_project username req) s is v = absurd is
  page-Keeps P (project username name) s is v = handler-Keeps H P _ s (search steps) v
  page-Keeps P (create_repository username name req) s is v = absurd is
  page-Keeps P (testing username name) s is v = v
  page-Keeps P (configuration username name) s is v = handler-Keeps H P _ s (search steps) v
  page-Keeps P (save_configuration username name req) s is v = v
  page-Keeps P (repo username name repo_name) s is v = handler-Keeps H P _ s (search steps) v
  page-Keeps P (builds username name repo_name id) s is v = v
  page-Keeps P (repo_flake username name repo_name) s is v = v

  pub serve-IsValid :
      (r : Route F64) (s : AppState H)
      → IsValid s.db.tables
      → IsValid (serve H front service json r s).1.db.tables
  unfolding serve Changes.create_user Changes.create_project Changes.create_repository
  serve-IsValid (create_user req) s v = handler-Keeps H IsValid _ s (search steps) v
  serve-IsValid (create_project username req) s v = handler-Keeps H IsValid _ s (search steps) v
  serve-IsValid (create_repository username name req) s v =
      handler-Keeps H IsValid _ s (search steps depth 9) v
  serve-IsValid index s v = page-Keeps IsValid index s tt v
  serve-IsValid (user username) s v = page-Keeps IsValid (user username) s tt v
  serve-IsValid (project username name) s v = page-Keeps IsValid (project username name) s tt v
  serve-IsValid (testing username name) s v = page-Keeps IsValid (testing username name) s tt v
  serve-IsValid (configuration username name) s v =
      page-Keeps IsValid (configuration username name) s tt v
  serve-IsValid (save_configuration username name req) s v =
      page-Keeps IsValid (save_configuration username name req) s tt v
  serve-IsValid (repo username name repo_name) s v =
      page-Keeps IsValid (repo username name repo_name) s tt v
  serve-IsValid (builds username name repo_name id) s v =
      page-Keeps IsValid (builds username name repo_name id) s tt v
  serve-IsValid (repo_flake username name repo_name) s v =
      page-Keeps IsValid (repo_flake username name repo_name) s tt v
