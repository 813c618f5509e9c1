-- ===== src/RepoOutils/Git.antt =====
-- repo_outils/src/git.rs: the paths and URLs of bare repositories, and the git commands on them. Paths
-- are texts, as on Unix.
use procurator.Prelude.{
  Option, ℕ, String, ◌<>◌, Bool, ◌||◌, List, [], ◌∷◌, str_eq, if◌then◌else◌, err, map_error, Eff,
  ◌>>=◌, pure, fail,
}
use procurator.Prelude.Strings.{has_prefix, ends_with}

pub data RepoError : Type 0 where
  io_error : String → RepoError
  git_error : String → RepoError
  already_exists : String → RepoError
  invalid_path : String → RepoError

-- `Display`
unfoldable pub display_error : RepoError → String
display_error (io_error e) = "IO error: " <> e
display_error (git_error msg) = "Git error: " <> msg
display_error (already_exists name) = "Repository already exists: " <> name
display_error (invalid_path msg) = "Invalid path: " <> msg

pub record RepoPath : Type 0 where
  pub base_path : String
  pub username : String
  pub repo_name : String

-- `Path::join`: an absolute path replaces what it is joined to.
unfoldable pub join_path : String → String → String
join_path base path =
    if has_prefix path "/"
    then path
    else if str_eq base "" || ends_with base "/"
    then base <> path
    else base <> ("/" <> path)

unfoldable pub bare_repo_path : RepoPath → String
bare_repo_path p = join_path (join_path p.base_path p.username) p.repo_name <> ".git"

unfoldable pub to_ssh_url : RepoPath → String → String
to_ssh_url p domain =
    "git@" <> (domain <> (":" <> (p.username <> ("/" <> (p.repo_name <> ".git")))))

unfoldable pub to_nix_url : RepoPath → String
to_nix_url p = "git+file://" <> bare_repo_path p

unfoldable pub to_nix_url_with_rev : RepoPath → String → String
to_nix_url_with_rev p commit_hash = "git+file://" <> (bare_repo_path p <> ("?rev=" <> commit_hash))

-- `Display`
unfoldable pub display_path : RepoPath → String
display_path p = p.base_path <> ("/" <> (p.username <> ("/" <> (p.repo_name <> ".git"))))

-- What a command gives: whether it succeeded, its exit code if it has one, as the bit pattern of an
-- `i32`, and what it wrote.
pub record Output : Type 0 where
  pub success : Bool
  pub code : Option ℕ
  pub stdout : String
  pub stderr : String

-- The file system, and a program run to its end with its arguments. Errors of the host are their
-- messages.
pub record CommandHost : Type 1 where
  pub World : Type 0
  pub exists_path : String → World → Bool
  pub output : String → List String → Eff World String Output
  pub create_dir_all : String → Eff World String (Unit {0})
  pub remove_dir_all : String → Eff World String (Unit {0})

unfoldable pub or_git_error : {W : Type 0} → String → Output → Eff W RepoError (Unit {0})
or_git_error what out = if out.success then pure tt else fail (git_error (what <> out.stderr))

module _ (H : CommandHost) where
  unfoldable pub create_bare_repo : String → Eff H.World RepoError (Unit {0})
  create_bare_repo bare_path w =
      if H.exists_path bare_path w
      then (err (already_exists bare_path), w)
      else (map_error io_error
              (H.output "git" ("init" ∷ "--bare" ∷ "--shared=group" ∷ bare_path ∷ []))
            >>= or_git_error "Failed to create repository: ")
          w

  unfoldable pub clone_into_bare : String → String → Eff H.World RepoError (Unit {0})
  clone_into_bare bare_path remote_url w =
      if H.exists_path bare_path w
      then (err (already_exists bare_path), w)
      else (map_error io_error (H.output "git" ("clone" ∷ "--bare" ∷ remote_url ∷ bare_path ∷ []))
            >>= or_git_error "Failed to clone repository: ")
          w

  unfoldable pub delete_repo : String → Eff H.World RepoError (Unit {0})
  delete_repo bare_path w =
      if H.exists_path bare_path w
      then map_error io_error (H.remove_dir_all bare_path) w
      else (err (invalid_path ("Repository does not exist: " <> bare_path)), w)
