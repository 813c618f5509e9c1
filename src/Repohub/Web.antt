-- ===== src/Repohub/Web.antt =====
-- repohub/src/web.rs: what the handlers share. An early return is the error of a chain. Routing and
-- the reading of requests are axum's.
pub mod Pages
pub mod Changes
pub mod Routes
pub mod Lookups
pub mod Entered
pub mod Kept
pub mod Names
pub mod Made
use procurator.Prelude.{
  ℕ, String, ◌<>◌, Option, none, some, List, [], ◌∷◌, map, Result, ok, err, map_err, Eff, pure,
  ◌>>=◌,
}
use procurator.RepoOutils.Git.{CommandHost}
use procurator.RepoOutils.Flake.{FlakeJson}
use procurator.Repohub.Models.{
  User, Project, Repository, user_from, project_from, repository_from, UserRow, ProjectRow,
  CreateUserRequest, CreateProjectRequest, CreateRepositoryRequest,
}
use procurator.Repohub.Configuration.{SaveConfigurationRequest}
use procurator.Repohub.Database.{Database, DatabaseError, Texts, error_text}
use procurator.Repohub.Database.Queries
use procurator.Repohub.Service.{RepositoryService, create_or_clone_repository, parse_flake_metadata}
use procurator.Repohub.Service
use procurator.Repohub.Http.{Template, StatusCode, html, text, json_id, json_success, Response}

-- What the handlers use of the libraries: how templates are rendered and repositories are printed as
-- JSON, each with its error, and how errors and numbers are printed.
pub record Front : Type 0 where
  pub texts : Texts
  pub render : Template → Result String String
  pub repositories_json : List Repository → Result String String

-- The state: the database, the host, and the service's settings.
pub record AppState (H : CommandHost) : Type 0 where
  pub db : Database
  pub host : H.World

unfoldable pub rendered : Result String String → Response
rendered (ok page) = record { status = StatusCode.ok; body = html page }
rendered (err e) = record {
  status = StatusCode.internal_server_error;
  body = text ("Template error: " <> e);
}

unfoldable pub created : ℕ → Response
created id = record { status = StatusCode.created; body = json_id id }

unfoldable pub failure : StatusCode → String → Response
failure status message = record { status = status; body = text message }

unfoldable pub or_empty : Result String String → String
or_empty (ok s) = s
or_empty (err e) = "[]"

unfoldable pub or_no_rows : {A : Type 0} → Result (List A) DatabaseError → List A
or_no_rows (ok rows) = rows
or_no_rows (err e) = []

-- A chain with early returns, to its response.
unfoldable pub returned : Result Response Response → Response
returned (ok r) = r
returned (err r) = r

module _ (H : CommandHost) where
  abbrev pub Chain : Type 0 → Type 0
  Chain A = Eff (AppState H) Response A

  abbrev pub Handler : Type 0
  Handler = AppState H → Response × AppState H

  unfoldable pub on_db :
      {A : Type 0} → (DatabaseError → Response) → Eff Database DatabaseError A → Chain A
  on_db f m s = (map_err f (m s.db).0, record s { db = (m s.db).1 })

  unfoldable pub handler : Chain Response → Handler
  unfolding returned
  handler m s = (returned (m s).0, (m s).1)

module _ (front : Front) where
  unfoldable pub html_template : Template → Response
  html_template page = rendered (front.render page)

  unfoldable pub not_implemented : String → String → String → Response
  not_implemented feature description back_url = html_template (
      Template.not_implemented
        (record { feature = feature; description = description; back_url = back_url }))

  unfoldable pub show_error : DatabaseError → String
  show_error e = error_text front.texts e

  unfoldable pub user_not_found : String → DatabaseError → Response
  user_not_found username e =
      not_implemented "User Not Found" ("User '" <> (username <> "' not found")) "/"

  unfoldable pub project_not_found : String → String → DatabaseError → Response
  project_not_found username project_name e =
      not_implemented "Project Not Found" ("Project '" <> (project_name <> "' not found"))
        ("/" <> username)

module _ (H : CommandHost) (front : Front) where
  -- The user of a request that changes something, and its project.
  unfoldable pub owner : String → Chain H UserRow
  owner username =
      on_db H (λ e. failure StatusCode.not_found ("User not found: " <> show_error front e))
        (Queries.get_user_by_username username)

  unfoldable pub project_of : ℕ → String → Chain H ProjectRow
  project_of owner_id project_name =
      on_db H (λ e. failure StatusCode.not_found ("Project not found: " <> show_error front e))
        (Queries.get_project front.texts owner_id project_name)

  -- The user and the project of a page.
  unfoldable pub page_project : String → String → Chain H ProjectRow
  page_project username project_name = do
    user ← on_db H (user_not_found front username) (Queries.get_user_by_username username)
    on_db H (project_not_found front username project_name)
        (Queries.get_project front.texts user.id project_name)
