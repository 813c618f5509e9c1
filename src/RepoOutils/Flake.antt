-- ===== src/RepoOutils/Flake.antt =====
-- repo_outils/src/nix/flake.rs: what is read of a repository's flake. Nix and git are commands of a
-- host, and the readers of their JSON are parameters, as are `f64` and the values of JSON. An
-- `i64` is kept as its bit pattern.
pub mod Declared
use procurator.Prelude.{
  ℕ, String, ◌<>◌, Bool, Option, none, some, List, [], ◌∷◌, ◌++◌, map, if◌then◌else◌, Result, ok,
  err, map_err, Eff, pure, fail, ◌>>=◌, map_error,
}
use procurator.Prelude.Strings.{trim}
use procurator.Prelude.HashMap.{HashMap, keys}
use procurator.RepoOutils.Git.{Output, CommandHost, RepoPath, bare_repo_path, to_nix_url_with_rev}
use procurator.RepoOutils.Flake.Declared.{Infrastructure}

pub data NixParserError : Type 0 where
  command_failed : String → NixParserError
  parse_error : String → NixParserError
  not_a_flake : NixParserError

-- `Display`
unfoldable pub error_text : NixParserError → String
error_text (command_failed msg) = "Command failed: " <> msg
error_text (parse_error msg) = "Parse error: " <> msg
error_text not_a_flake = "Not a Nix flake"

-- The output of `nix flake metadata --json`
pub record NixFlakeLocks (Value : Type 0) : Type 0 where
  pub version : Option ℕ
  pub root : Option String
  pub nodes : Option (HashMap Value)

pub record NixFlakeMetadataOutput (Value : Type 0) : Type 0 where
  pub description : Option String
  pub path : Option String
  pub url : Option String
  pub original_url : Option String
  pub resolved_url : Option String
  pub last_modified : Option ℕ
  pub fingerprint : Option String
  pub dirty_revision : Option String
  pub locks : Option (NixFlakeLocks Value)

-- The output of `nix flake show --json`
pub record NixDerivationInfo : Type 0 where
  pub name : Option String
  pub description : Option String
  pub derivation_type : Option String

pub record NixAppInfo : Type 0 where
  pub description : Option String
  pub app_type : Option String

pub record NixModuleInfo : Type 0 where
  pub module_type : Option String

pub record NixFlakeShowOutput (Value : Type 0) : Type 0 where
  pub packages : HashMap (HashMap NixDerivationInfo)
  pub checks : HashMap (HashMap NixDerivationInfo)
  pub apps : HashMap (HashMap NixAppInfo)
  pub dev_shells : HashMap (HashMap NixDerivationInfo)
  pub nixos_modules : HashMap NixModuleInfo
  pub nixos_configurations : HashMap Value
  pub infrastructure : Option (HashMap Value)

-- The default of every field
abbrev pub default_show : {Value : Type 0} → NixFlakeShowOutput Value
default_show = record {
  packages = [];
  checks = [];
  apps = [];
  dev_shells = [];
  nixos_modules = [];
  nixos_configurations = [];
  infrastructure = none;
}

pub record FlakeMetadata : Type 0 where
  pub description : Option String
  pub packages : List String
  pub checks : List String
  pub apps : List String
  pub dev_shells : List String
  pub nixos_modules : List String

-- "system.name" of every output
unfoldable pub flatten_system_outputs : {A : Type 0} → HashMap (HashMap A) → List String
flatten_system_outputs [] = []
flatten_system_outputs ((system, items) ∷ outputs) =
    map (λ name. system <> ("." <> name)) (keys items) ++ flatten_system_outputs outputs

-- The metadata of what the two commands give
unfoldable pub metadata_of :
    {Value : Type 0} → NixFlakeMetadataOutput Value → NixFlakeShowOutput Value → FlakeMetadata
metadata_of metadata show_output = record {
  description = metadata.description;
  packages = flatten_system_outputs show_output.packages;
  checks = flatten_system_outputs show_output.checks;
  apps = flatten_system_outputs show_output.apps;
  dev_shells = flatten_system_outputs show_output.dev_shells;
  nixos_modules = keys show_output.nixos_modules;
}

-- The readers of JSON, with their error's message.
pub record FlakeJson (F64 Value : Type 0) : Type 0 where
  pub read_metadata : String → Result (NixFlakeMetadataOutput Value) String
  pub read_show : String → Result (NixFlakeShowOutput Value) String
  pub read_infrastructure : String → Result (Infrastructure F64) String

-- A command's failure, or what is made of its output.
unfoldable pub of_output :
    {A : Type 0} → (String → Result A NixParserError) → Output → Result A NixParserError
of_output f out = if out.success then f out.stdout else err (command_failed out.stderr)

abbrev pub unwrap_or : {A : Type 0} → A → Result A NixParserError → A
unwrap_or a (ok b) = b
unwrap_or a (err e) = a

module _ (H : CommandHost) where
  abbrev pub Action : Type 0 → Type 0
  Action A = Eff H.World NixParserError A

  unfoldable pub run_command :
      {A : Type 0} → String → List String → (String → Result A NixParserError) → Action A
  run_command program args f = do
    out ← map_error command_failed (H.output program args)
    λ w. (of_output f out, w)

  unfoldable pub run_nix_command :
      {A : Type 0} → (String → Result A String) → List String → Action A
  run_nix_command read args = run_command "nix" args (λ stdout. map_err parse_error (read stdout))

  unfoldable pub get_head_rev : String → Action String
  get_head_rev bare_path =
      run_command "git" ("--git-dir" ∷ bare_path ∷ "rev-parse" ∷ "HEAD" ∷ [])
        (λ stdout. ok (trim stdout))

  -- `unwrap_or_default`
  unfoldable pub or_default : {A : Type 0} → A → Action A → Action A
  or_default a m w = (ok (unwrap_or a (m w).0), (m w).1)

  module _ {F64 Value : Type 0} (json : FlakeJson F64 Value) where
    -- `TryFrom<&RepoPath> for Infrastructure`
    unfoldable pub infrastructure_of : RepoPath → Action (Infrastructure F64)
    infrastructure_of repo_path = do
      head_rev ← get_head_rev (bare_repo_path repo_path)
      map_error (λ e. not_a_flake)
          (run_nix_command json.read_infrastructure (
            "eval" ∷ "--json" ∷ (to_nix_url_with_rev repo_path head_rev <> "#infrastructure") ∷ []))

    -- `TryFrom<&RepoPath> for FlakeMetadata`
    unfoldable pub flake_metadata_of : RepoPath → Action FlakeMetadata
    flake_metadata_of repo_path = do
      head_rev ← get_head_rev (bare_repo_path repo_path)
      metadata ←
          map_error (λ e. not_a_flake)
            (run_nix_command json.read_metadata
              ("flake" ∷ "metadata" ∷ "--json" ∷ to_nix_url_with_rev repo_path head_rev ∷ []))
      show_output ← or_default default_show (
          run_nix_command json.read_show
            ("flake" ∷ "show" ∷ "--json" ∷ to_nix_url_with_rev repo_path head_rev ∷ []))
      pure (metadata_of metadata show_output)
