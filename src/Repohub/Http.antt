-- ===== src/Repohub/Http.antt =====
-- repohub/src/web.rs: the pages, whose templates are rendered outside, and the responses.
use procurator.Prelude.{ℕ, String, Option, List}
use procurator.RepoOutils.Flake.{FlakeMetadata}
use procurator.Repohub.Models.{User, Project, Repository}

pub record UserTemplate : Type 0 where
  pub user : User
  pub projects : List Project

pub record ProjectTemplate : Type 0 where
  pub username : String
  pub project : Project
  pub repositories : List Repository

pub record RepositoryTemplate : Type 0 where
  pub username : String
  pub project_name : String
  pub repo : Repository

pub record NotImplementedTemplate : Type 0 where
  pub feature : String
  pub description : String
  pub back_url : String

pub record FlakeTemplate : Type 0 where
  pub username : String
  pub project_name : String
  pub repo_name : String
  pub flake_metadata : Option FlakeMetadata

pub record ConfigurationTemplate : Type 0 where
  pub username : String
  pub project_name : String
  pub repositories : List Repository
  pub repositories_json : String

pub data Template : Type 0 where
  index : List User → Template
  user : UserTemplate → Template
  project : ProjectTemplate → Template
  repository : RepositoryTemplate → Template
  not_implemented : NotImplementedTemplate → Template
  flake : FlakeTemplate → Template
  configuration : ConfigurationTemplate → Template

pub data StatusCode : Type 0 where
  ok : StatusCode
  created : StatusCode
  not_found : StatusCode
  internal_server_error : StatusCode

-- HTML, a text, `{ "id": id }` and `{ "success": true }`
pub data Body : Type 0 where
  html : String → Body
  text : String → Body
  json_id : ℕ → Body
  json_success : Body

pub record Response : Type 0 where
  pub status : StatusCode
  pub body : Body
