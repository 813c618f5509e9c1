-- ===== src/Repohub/Web/Changes.antt =====
-- repohub/src/web.rs: the handlers that make something.
use procurator.Prelude.{String, ◌<>◌, map_err, pure, ◌>>=◌}
use procurator.RepoOutils.Git.{CommandHost}
use procurator.Repohub.Models.{CreateUserRequest, CreateProjectRequest, CreateRepositoryRequest}
use procurator.Repohub.Configuration.{SaveConfigurationRequest}
use procurator.Repohub.Database.Queries
use procurator.Repohub.Service.{RepositoryService, create_or_clone_repository, parse_flake_metadata}
use procurator.Repohub.Service
use procurator.Repohub.Http.{StatusCode, json_success}
use procurator.Repohub.Web.{
  Front, created, failure, Chain, Handler, on_db, handler, show_error, owner, project_of,
}

module _ (H : CommandHost) (front : Front) where
  unfoldable pub create_user : CreateUserRequest → Handler H
  create_user req = handler H do
    id ←
        on_db H
          (λ e.
            failure StatusCode.internal_server_error
              ("Failed to create user: " <> show_error front e))
          (Queries.create_user req.username req.email)
    pure (created id)

  unfoldable pub create_project : String → CreateProjectRequest → Handler H
  create_project username req = handler H do
    user ← owner H front username
    id ←
        on_db H
          (λ e.
            failure StatusCode.internal_server_error
              ("Failed to create project: " <> show_error front e))
          (Queries.create_project req.name user.id req.description)
    pure (created id)

  -- The configuration is only logged.
  unfoldable pub save_configuration :
      {F64 : Type 0} → String → String → SaveConfigurationRequest F64 → Handler H
  save_configuration username project_name req s =
      (record { status = StatusCode.ok; body = json_success }, s)

module _ (H : CommandHost) (front : Front) (service : RepositoryService) where
  unfoldable pub make_repository : String → CreateRepositoryRequest → Chain H String
  make_repository username req s =
      let r = create_or_clone_repository H service username req.name req.git_url s.host in
      (
        map_err
            (λ e.
              failure StatusCode.internal_server_error
                ("Failed to create repository: " <> Service.error_text e))
            r.0,
        record s { host = r.1 },
      )

  unfoldable pub create_repository : String → String → CreateRepositoryRequest → Handler H
  create_repository username project_name req = handler H do
    user ← owner H front username
    project ← project_of H front user.id project_name
    git_url ← make_repository username req
    id ←
        on_db H
          (λ e.
            failure StatusCode.internal_server_error
              ("Failed to create repository: " <> show_error front e))
          (Queries.create_repository project.id req.name git_url)
    pure (created id)
