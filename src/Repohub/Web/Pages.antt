-- ===== src/Repohub/Web/Pages.antt =====
-- repohub/src/web.rs: the handlers that show something.
use procurator.Prelude.{ℕ, String, ◌<>◌, List, map, ok, pure, ◌>>=◌}
use procurator.RepoOutils.Git.{CommandHost}
use procurator.RepoOutils.Flake.{FlakeJson}
use procurator.Repohub.Models.{Repository, user_from, project_from, repository_from}
use procurator.Repohub.Database.Queries
use procurator.Repohub.Service.{RepositoryService, parse_flake_metadata}
use procurator.Repohub.Http.{Template}
use procurator.Repohub.Web.{
  Front, or_empty, or_no_rows, Chain, Handler, on_db, handler, html_template, not_implemented,
  show_error, user_not_found, page_project,
}

module _ (H : CommandHost) (front : Front) where
  unfoldable pub index : Handler H
  index = handler H do
    users ←
        on_db H
          (λ e. not_implemented front "Error" ("Failed to list users: " <> show_error front e) "/")
          Queries.list_users
    pure (html_template front (Template.index (map user_from users)))

  unfoldable pub user : String → Handler H
  user username = handler H do
    row ← on_db H (user_not_found front username) (Queries.get_user_by_username username)
    projects ←
        on_db H
          (λ e.
            not_implemented front "Error" ("Failed to list projects: " <> show_error front e) "/")
          (Queries.list_projects_by_owner row.id)
    pure (
        html_template front
          (Template.user (record { user = user_from row; projects = map project_from projects })))

  unfoldable pub project : String → String → Handler H
  project username project_name = handler H do
    row ← page_project H front username project_name
    repos ←
        on_db H
          (λ e.
            not_implemented front "Error" ("Failed to list repositories: " <> show_error front e)
              ("/" <> username))
          (Queries.list_repositories_by_project row.id)
    pure (
        html_template front (
          Template.project (record {
            username = username;
            project = project_from row;
            repositories = map repository_from repos;
          })))

  unfoldable pub repo : String → String → String → Handler H
  repo username project_name repo_name = handler H do
    row ← page_project H front username project_name
    found ←
        on_db H
          (λ e.
            not_implemented front "Repository Not Found"
              ("Repository '" <> (repo_name <> "' not found"))
              ("/" <> (username <> ("/" <> project_name))))
          (Queries.get_repository front.texts row.id repo_name)
    pure (
        html_template front (
          Template.repository (record {
            username = username;
            project_name = project_name;
            repo = repository_from found;
          })))

  -- A failure to list the repositories is shown as none.
  unfoldable pub listed_or_none : ℕ → Chain H (List Repository)
  listed_or_none project_id s =
      let r = Queries.list_repositories_by_project project_id s.db in
      (ok (map repository_from (or_no_rows r.0)), record s { db = r.1 })

  unfoldable pub configuration : String → String → Handler H
  configuration username project_name = handler H do
    row ← page_project H front username project_name
    repositories ← listed_or_none row.id
    pure (
        html_template front (
          Template.configuration (record {
            username = username;
            project_name = project_name;
            repositories = repositories;
            repositories_json = or_empty (front.repositories_json repositories);
          })))

  unfoldable pub testing : String → String → Handler H
  testing username project s = (
    not_implemented front "E2E Testing & Monitoring"
        "Define and run end-to-end tests across all services in this project. Monitor performance, measure service health, and validate integration points."
        ("/" <> (username <> ("/" <> project))),
    s,
  )

  unfoldable pub builds : String → String → String → ℕ → Handler H
  builds username project repo id s = (
    not_implemented front "Build Details"
        "View build logs, status, and artifacts. This will integrate with the CI service to display build information."
        ("/" <> (username <> ("/" <> (project <> ("/" <> repo))))),
    s,
  )

module _ (H : CommandHost) (front : Front) (service : RepositoryService) where
  unfoldable pub repo_flake :
      {F64 Value : Type 0} → FlakeJson F64 Value → String → String → String → Handler H
  repo_flake json username project_name repo_name s =
      let r = parse_flake_metadata H service json username repo_name s.host in
      (
        html_template front (
            Template.flake (record {
              username = username;
              project_name = project_name;
              repo_name = repo_name;
              flake_metadata = r.0;
            })),
        record s { host = r.1 },
      )
