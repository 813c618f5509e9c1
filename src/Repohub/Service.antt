-- ===== src/Repohub/Service.antt =====
-- repohub/src/services/repository_service.rs: bare repositories on disk, and what is read of them.
pub mod Existing
use procurator.Prelude.{
  String, ◌<>◌, Bool, Option, none, some, List, [], ◌∷◌, ◌||◌, str_eq, if◌then◌else◌, Result, ok,
  err, Eff, pure, fail, ◌>>=◌, ◌>>◌, map_error,
}
use procurator.Prelude.Strings.{split, join_with}
use procurator.RepoOutils.Git.{
  CommandHost, RepoPath, bare_repo_path, to_ssh_url, display_error, create_bare_repo,
  clone_into_bare,
}
use procurator.RepoOutils.Flake.{FlakeJson, FlakeMetadata, flake_metadata_of, infrastructure_of}
use procurator.RepoOutils.Flake.Declared.{Infrastructure}

pub data RepositoryError : Type 0 where
  directory_creation : String → RepositoryError
  bare_repo_creation : String → RepositoryError
  clone_failed : String → RepositoryError
  invalid_path : RepositoryError

-- `Display`
unfoldable pub error_text : RepositoryError → String
error_text (directory_creation e) = "Failed to create directory: " <> e
error_text (bare_repo_creation msg) = "Failed to create bare repository: " <> msg
error_text (clone_failed msg) = "Failed to clone repository: " <> msg
error_text invalid_path = "Invalid repository path"

pub record RepositoryService : Type 0 where
  pub repos_base_path : String
  pub domain : String

-- `Path::parent`: the text before the last component, less the separators and `.` at its end. It is
-- applied to paths that end in a name.
unfoldable pub is_idle : String → Bool
is_idle part = str_eq part "" || str_eq part "."

unfoldable pub drop_idle : List String → List String
drop_idle [] = []
drop_idle (part ∷ parts) = elim (drop_idle parts) [
  | [] ↦ if is_idle part then [] else part ∷ []
  | p ∷ ps ↦ part ∷ p ∷ ps
]

unfoldable pub without_last : List String → List String
without_last [] = []
without_last (part ∷ []) = []
without_last (part ∷ (p ∷ ps)) = part ∷ without_last (p ∷ ps)

unfoldable pub from_parts : List String → Option String
from_parts [] = some ""
from_parts (part ∷ parts) = elim (drop_idle parts) [
  | [] ↦ if str_eq part "" then some "/" else some part
  | p ∷ ps ↦ some (join_with "/" (part ∷ p ∷ ps))
]

unfoldable pub parent : String → Option String
parent path = from_parts (without_last (split b'/' path))

unfoldable pub ok_or_invalid_path : {W : Type 0} → Option String → Eff W RepositoryError String
ok_or_invalid_path none = fail invalid_path
ok_or_invalid_path (some p) = pure p

-- A best-effort read
unfoldable pub found : {A E : Type 0} → Result A E → Option A
found (ok a) = some a
found (err e) = none

module _ (H : CommandHost) (service : RepositoryService) where
  unfoldable pub get_repo_path : String → String → RepoPath
  get_repo_path username repo_name = record {
    base_path = service.repos_base_path;
    username = username;
    repo_name = repo_name;
  }

  -- The two ways to make the bare repository, each with the URL to store.
  unfoldable pub create_or_clone : RepoPath → Option String → Eff H.World RepositoryError String
  create_or_clone repo_path (some remote_url) = do
    map_error (λ e. clone_failed (display_error e))
        (clone_into_bare H (bare_repo_path repo_path) remote_url)
    pure remote_url
  create_or_clone repo_path none = do
    directory ← ok_or_invalid_path (parent (bare_repo_path repo_path))
    map_error directory_creation (H.create_dir_all directory)
    map_error (λ e. bare_repo_creation (display_error e))
        (create_bare_repo H (bare_repo_path repo_path))
    pure (to_ssh_url repo_path service.domain)

  unfoldable pub create_or_clone_repository :
      String → String → Option String → Eff H.World RepositoryError String
  create_or_clone_repository username repo_name git_url =
      create_or_clone (get_repo_path username repo_name) git_url

  module _ {F64 Value : Type 0} (json : FlakeJson F64 Value) where
    unfoldable pub parse_flake_metadata : String → String → H.World → Option FlakeMetadata × H.World
    parse_flake_metadata username repo_name w =
        let r = flake_metadata_of H json (get_repo_path username repo_name) w in (found r.0, r.1)

    unfoldable pub parse_infrastructure :
        String → String → H.World → Option (Infrastructure F64) × H.World
    parse_infrastructure username repo_name w =
        let r = infrastructure_of H json (get_repo_path username repo_name) w in (found r.0, r.1)
