-- ===== src/Repohub/Web/Kept.antt =====
-- repohub/src/web.rs: sequences of requests and the tables.
pub mod Chains
use procurator.Prelude.{
  ℕ, String, ◌≡◌, ◌⊎◌, inl, inr, List, [], ◌∷◌, Option, Bool-cases, Result, Eff, pure, ◌>>=◌,
  map_error, resume_keeps,
}
use procurator.RepoOutils.Git.{CommandHost}
use procurator.RepoOutils.Flake.{FlakeJson}
use procurator.Repohub.Models.{CreateUserRequest, CreateProjectRequest, CreateRepositoryRequest}
use procurator.Repohub.Database.{Tables, SqlxError, Database, DatabaseError, statement, next_fault}
use procurator.Repohub.Database.Queries
use procurator.Repohub.Database.Valid.{
  IsValid, statement-IsValid, insert_user-IsValid, insert_project-IsValid,
  insert_repository-IsValid,
}
use procurator.Repohub.Service.{RepositoryService}
use procurator.Repohub.Http.{Response}
use procurator.Repohub.Web.{Front, AppState, Chain, on_db, handler, owner, project_of, page_project}
use procurator.Repohub.Web.Pages
use procurator.Repohub.Web.Changes
use procurator.Repohub.Web.Entered.Rows.{with_user}
use procurator.Repohub.Web.Entered.{Refusal, Entry, ProjectEntry, RepositoryEntry}
use procurator.Repohub.Web.Routes.{Route, create_user, create_project, create_repository}

module _ (H : CommandHost) (front : Front) (service : RepositoryService) {F64 Value : Type 0}
    (json : FlakeJson F64 Value) where
  -- What a request does to the state: it is refused and leaves the tables, or enters the one row that
  -- it asks for and is answered with the row's id. A page only reads.
  abbrev pub Serves : Route F64 → AppState H → Response → AppState H → Type 0
  Serves (create_user req) s r s' =
      let t = s.db.tables in Refusal H t r s' ⊎ Entry H t.next_user (with_user req s.db.now t) r s'
  Serves (create_project username req) s r s' =
      Refusal H s.db.tables r s' ⊎ ProjectEntry H front username req s r s'
  Serves (create_repository username name req) s r s' =
      Refusal H s.db.tables r s' ⊎ RepositoryEntry H front service username name req s r s'
  Serves _ s r s' = s'.db.tables ≡ s.db.tables

  -- The states that some requests lead through, each by what its request may do, and each within
  -- the constraints of the tables.
  abbrev pub History : List (Route F64) → AppState H → AppState H → Type 0
  History [] s s' = (s' ≡ s) × IsValid s.db.tables
  History (r ∷ rs) s s' =
      IsValid s.db.tables × ((q : Response × AppState H) × Serves r s q.0 q.1 × History rs q.1 s')
