-- ===== src/RepoOutils/Commands.antt =====
-- repo_outils/src/nix/commands.rs: the nix commands. A command is run by the host; of a check, the
-- host also gives the entries of the log that it reads until the end of the stream, with their times.
-- A path is its text, or `none` if it is not UTF-8.
pub mod Checks
use procurator.Prelude.{
  ℕ, String, ◌<>◌, ◌≡◌, refl, ◌≢◌, Bool, true, false, not, Option, none, some, List, [], ◌∷◌, map,
  arith, str_eq, if◌then◌else◌, Result, ok, err, map_err, and_then, Eff, pure, fail, ◌>>=◌,
  map_error, length, retain,
}
use procurator.Prelude.Strings.{trim, lines}
use procurator.Prelude.HashMap.{HashMap}
use procurator.RepoOutils.Git.{Output, CommandHost}
use procurator.RepoOutils.Logs.{LogEntry, State, default_state, process_entries}
use procurator.RepoOutils.Logs.Summary.{Summary, into_output}

-- The errors of logs.rs. Of a time only its printed form is used.
pub data LogError : Type 0 where
  log_io : String → LogError
  log_process_failed : Option ℕ → String → LogError
  log_json : String → LogError
  log_flake_path : String → LogError
  timeout : String → LogError

pub data Error : Type 0 where
  io : String → Error
  process_failed : Option ℕ → String → Error
  json_parse : String → Error
  invalid_flake_path : String → Error
  log_parsing : LogError → Error
  build_output_missing : Error

-- How an exit code is printed is a parameter.
unfoldable pub log_error_text : (Option ℕ → String) → LogError → String
log_error_text code_text (log_io e) = "IO error: " <> e
log_error_text code_text (log_process_failed code stderr) =
    "Nix process failed with exit code " <> (code_text code <> (": " <> stderr))
log_error_text code_text (log_json e) = "JSON parse error: " <> e
log_error_text code_text (log_flake_path path) = "Invalid flake path: " <> path
log_error_text code_text (timeout duration) = "Process timed out after " <> duration

unfoldable pub error_text : (Option ℕ → String) → Error → String
error_text code_text (io e) = "IO error: " <> e
error_text code_text (process_failed code stderr) =
    "Process failed with exit code " <> (code_text code <> (": " <> stderr))
error_text code_text (json_parse e) = "Failed to parse JSON output: " <> e
error_text code_text (invalid_flake_path path) = "Invalid flake path: " <> path
error_text code_text (log_parsing e) = "Log parsing error: " <> log_error_text code_text e
error_text code_text build_output_missing = "Build output missing"

-- `cpu` is an `f64`.
pub record VmMetadata (F64 : Type 0) : Type 0 where
  pub name : String
  pub drv_path : String
  pub out_path : String
  pub content_hash : String
  pub cpu : F64
  pub memory_bytes : ℕ
  pub labels : List String
  pub replicas : ℕ

unfoldable pub validate_path : Option String → Result String Error
validate_path none = err (invalid_flake_path "Path contains invalid UTF-8")
validate_path (some path) =
    if str_eq path "" then err (invalid_flake_path "Flake path cannot be empty") else ok path

unfoldable pub on_path : {W A : Type 0} → Option String → (String → Eff W Error A) → Eff W Error A
on_path path f w = elim (validate_path path) [ err e ↦ (err e, w) | ok p ↦ f p w ]

unfoldable pub checked : {A : Type 0} → (String → Result A Error) → Output → Result A Error
checked f out = if out.success then f out.stdout else err (process_failed out.code out.stderr)

-- The paths that a build prints, one in a line.
unfoldable pub printed_paths : String → List String
printed_paths stdout = retain (λ line. not (str_eq line "")) (map trim (lines stdout))

unfoldable pub some_paths : List String → Result (List String) Error
some_paths [] = err build_output_missing
some_paths (p ∷ ps) = ok (p ∷ ps)

module _ (H : CommandHost) where
  unfoldable pub output_of :
      {A : Type 0} → List String → (String → Result A Error) → Eff H.World Error A
  output_of args f = do out ← map_error io (H.output "nix" args); λ w. (checked f out, w)

  unfoldable pub eval_cluster_metadata :
      {F64 : Type 0}
      → (String → Result (HashMap (VmMetadata F64)) String)
      → Option String
      → String
      → Eff H.World Error (HashMap (VmMetadata F64))
  eval_cluster_metadata from_json flake_path attr = on_path flake_path λ path.
      output_of ("eval" ∷ "--json" ∷ (path <> ("#" <> attr)) ∷ [])
        (λ stdout. map_err json_parse (from_json stdout))

  unfoldable pub build_cluster_images : Option String → String → Eff H.World Error (List String)
  build_cluster_images flake_path attr = on_path flake_path λ path.
      output_of ("build" ∷ "--no-link" ∷ "--print-out-paths" ∷ (path <> ("#" <> attr)) ∷ [])
        (λ stdout. some_paths (printed_paths stdout))

-- A process whose log is read, and the clock.
pub record ChildHost : Type 1 where
  pub World : Type 0
  pub Child : Type 0
  pub now : World → ℕ
  pub spawn : List String → Eff World String Child
  pub read_log : Child → World → List (LogEntry × ℕ) × World
  pub wait : Child → Eff World String Output

module _ (H : ChildHost) where
  -- The exit status and the log, to the output. `none` is a timeline without end.
  unfoldable pub of_status : ℕ → ℕ → State → Output → Result (Option Summary) Error
  of_status started_at completed_at handler status =
      if status.success
      then ok (into_output (length handler.finished_steps) started_at completed_at handler)
      else err (process_failed status.code "Build failed")

  unfoldable pub run_command : List String → Eff H.World Error (Option Summary)
  run_command args w =
      (do
        child ← map_error io (H.spawn args)
        entries ← λ v. (ok (H.read_log child v).0, (H.read_log child v).1)
        status ← map_error io (H.wait child)
        λ v. (of_status (H.now w) (H.now v) (process_entries entries default_state) status, v))
        w

  unfoldable pub flake_check : Option String → Eff H.World Error (Option Summary)
  flake_check flake_path = on_path flake_path λ path.
      run_command
        ("flake" ∷ "check" ∷ path ∷ "--print-build-logs" ∷ "--log-format" ∷ "internal-json" ∷ [])
