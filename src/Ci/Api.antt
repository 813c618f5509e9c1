-- ===== src/Ci/Api.antt =====
-- ci_service/src/api.rs: the handlers of the HTTP API, on the queue of builds. A response is its
-- status code and body, or its status code and text.
pub mod Created
use procurator.Prelude.{
  ℕ, String, ◌<>◌, Option, none, some, List, map, length, Eff, pure, map_error, ◌>>=◌,
}
use procurator.Prelude.Strings.{strip_prefix}
use procurator.Ci.Builds.{BuildStatus, queued, BuildJob, BuildInfo, build_info}
use procurator.Ci.Queue.{
  World, DatabaseError, connection, query_error, invalid_data, list_all_builds,
}
use procurator.Ci.Queue

pub record BuildsListResponse : Type 0 where
  pub builds : List BuildInfo
  pub total : ℕ

pub record BuildRequest : Type 0 where
  pub repo : String
  pub bare_repo_path : String
  pub old_rev : Option String
  pub new_rev : String
  pub ref_name : String
  pub commit_author : Option String
  pub commit_email : Option String
  pub commit_message : Option String
  pub gpg_status : Option String
  pub gpg_key : Option String
  pub gpg_signer : Option String
  pub pusher : Option String
  pub ssh_client_ip : Option String

pub record BuildResponse : Type 0 where
  pub id : ℕ
  pub status : BuildStatus

pub data StatusCode : Type 0 where
  accepted : StatusCode
  not_found : StatusCode
  internal_server_error : StatusCode

abbrev pub Handler : Type 0 → Type 0
Handler A = Eff World (StatusCode × String) A

abbrev or_whole : String → Option String → String
or_whole s none = s
or_whole s (some rest) = rest

unfoldable pub branch_of : String → String
branch_of ref_name = or_whole ref_name (strip_prefix ref_name "refs/heads/")

-- The text of a number in decimal digits is a parameter.
module _ (decimal_text : ℕ → String) where
  -- `Display`
  unfoldable pub error_text : DatabaseError → String
  error_text (connection e) = "Database connection error: " <> e
  error_text (query_error e) = "Database query error: " <> e
  error_text (invalid_data msg) = "Invalid data: " <> msg
  error_text (DatabaseError.not_found id) = "Not found: Build " <> (decimal_text id <> " not found")

  -- `created_at` is the database's own clock.
  unfoldable pub create_build : BuildRequest → ℕ → Handler (StatusCode × BuildResponse)
  create_build req created_at = do
    id ←
        map_error (λ e. (internal_server_error, "Failed to enqueue build: " <> error_text e))
          (Queue.enqueue req.bare_repo_path req.new_rev (branch_of req.ref_name) created_at)
    pure (accepted, record { id = id; status = queued })

  unfoldable pub list_builds : Handler BuildsListResponse
  list_builds = do
    builds ←
        map_error (λ e. (internal_server_error, "Failed to list builds: " <> error_text e))
          list_all_builds
    pure (record { builds = map build_info builds; total = length builds })

  unfoldable pub get_build : ℕ → Handler BuildInfo
  get_build id = do
    build ← map_error (λ e. (not_found, "Build not found: " <> error_text e)) (Queue.get_build id)
    pure (build_info build)
