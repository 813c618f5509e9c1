-- ===== src/Repohub/Web/Routes.antt =====
-- repohub/src/web.rs, `routes`: a request that axum has matched to a route and read, and its handler.
use procurator.Prelude.{ℕ, String, List, [], ◌∷◌}
use procurator.RepoOutils.Git.{CommandHost}
use procurator.RepoOutils.Flake.{FlakeJson}
use procurator.Repohub.Models.{CreateUserRequest, CreateProjectRequest, CreateRepositoryRequest}
use procurator.Repohub.Configuration.{SaveConfigurationRequest}
use procurator.Repohub.Service.{RepositoryService}
use procurator.Repohub.Web.{Front, AppState, Handler}
use procurator.Repohub.Web.Pages
use procurator.Repohub.Web.Changes

pub data Route (F64 : Type 0) : Type 0 where
  index : Route F64
  create_user : CreateUserRequest → Route F64
  user : String → Route F64
  create_project : String → CreateProjectRequest → Route F64
  project : String → String → Route F64
  create_repository : String → String → CreateRepositoryRequest → Route F64
  testing : String → String → Route F64
  configuration : String → String → Route F64
  save_configuration : String → String → SaveConfigurationRequest F64 → Route F64
  repo : String → String → String → Route F64
  builds : String → String → String → ℕ → Route F64
  repo_flake : String → String → String → Route F64

module _ (H : CommandHost) (front : Front) (service : RepositoryService) {F64 Value : Type 0}
    (json : FlakeJson F64 Value) where
  unfoldable pub serve : Route F64 → Handler H
  serve index = Pages.index H front
  serve (create_user req) = Changes.create_user H front req
  serve (user username) = Pages.user H front username
  serve (create_project username req) = Changes.create_project H front username req
  serve (project username name) = Pages.project H front username name
  serve (create_repository username name req) =
      Changes.create_repository H front service username name req
  serve (testing username name) = Pages.testing H front username name
  serve (configuration username name) = Pages.configuration H front username name
  serve (save_configuration username name req) =
      Changes.save_configuration H front username name req
  serve (repo username name repo_name) = Pages.repo H front username name repo_name
  serve (builds username name repo_name id) = Pages.builds H front username name repo_name id
  serve (repo_flake username name repo_name) =
      Pages.repo_flake H front service json username name repo_name

  -- The state after some requests, one at a time.
  unfoldable pub serve_all : List (Route F64) → AppState H → AppState H
  serve_all [] s = s
  serve_all (r ∷ rs) s = serve_all rs (serve r s).1
