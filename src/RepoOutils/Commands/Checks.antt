-- ===== src/RepoOutils/Commands/Checks.antt =====
-- repo_outils/src/nix/commands.rs: what a check of a flake gives.
use procurator.Prelude.{
  ℕ, String, ◌≤◌, ◌≡◌, refl, ap, ◌∙◌, true, false, Option, some, List, [], ◌∷◌, arith, str_eq, ok,
  length, count, Eff, Result,
}
use procurator.RepoOutils.Git.{Output}
use procurator.RepoOutils.Logs.{State, default_state, process_entries}
use procurator.RepoOutils.Logs.Summary.{
  Summary, into_output, duration, starts_id, into_output-process_entries,
}
use procurator.RepoOutils.Commands.{
  Error, ChildHost, validate_path, on_path, of_status, run_command, flake_check,
}

abbrev pub check_args : String → List String
check_args path =
    "flake" ∷ "check" ∷ path ∷ "--print-build-logs" ∷ "--log-format" ∷ "internal-json" ∷ []

on_path-named :
    {W A : Type 0} (path : String) (f : String → Eff W Error A) (w : W)
    → str_eq path "" ≡ false
    → on_path (some path) f w ≡ f path w
unfolding on_path validate_path
on_path-named path f w named = ground arith

of_status-succeeded :
    (H : ChildHost) (t1 t2 : ℕ) (st : State) (status : Output) (o : Option Summary)
    → status.success ≡ true
    → into_output (length st.finished_steps) t1 t2 st ≡ o
    → of_status H t1 t2 st status ≡ ok o
unfolding of_status
of_status-succeeded H t1 t2 st status o succeeded made = rw (succeeded, made) refl

run_command-ended :
    (H : ChildHost) (args : List String) (w : H.World) (child : H.Child) (status : Output)
    → (H.spawn args w).0 ≡ ok child
    → let log = H.read_log child (H.spawn args w).1 in
      let v = (H.wait child log.1).1 in
      (H.wait child log.1).0 ≡ ok status
      → (run_command H args w).0
        ≡ of_status H (H.now w) (H.now v) (process_entries log.0 default_state) status
unfolding run_command
run_command-ended H args w child status spawned ended = rw (spawned, ended) refl

-- A check of a path that is not empty, whose process starts_id, writes a log in which no id is started
-- twice, and succeeds, gives a summary: the recursion over the timeline ends. The summary counts the
-- steps that are finished in the log, and has the duration zero if the clock does not go back.
flake_check_lem :
    (H : ChildHost) (path : String) (w : H.World) (child : H.Child) (status : Output)
    → str_eq path "" ≡ false
    → (H.spawn (check_args path) w).0 ≡ ok child
    → let log = H.read_log child (H.spawn (check_args path) w).1 in
      let v = (H.wait child log.1).1 in
      (H.wait child log.1).0 ≡ ok status
      → status.success ≡ true
      → ((id : ℕ) → count (starts_id id) log.0 ≤ 1)
      → H.now w ≤ H.now v
      → (s : Summary) × ((flake_check H (some path) w).0 ≡ ok (some s))
        × (s.total_steps ≡ length (process_entries log.0 default_state).finished_steps)
        × (duration s ≡ 0)
unfolding flake_check
flake_check_lem H path w child status named spawned ended succeeded once ordered =
    let log = H.read_log child (H.spawn (check_args path) w).1 in
    let (s, made, total, none_taken) =
      into_output-process_entries log.0 (H.now w) (H.now (H.wait child log.1).1) once ordered in
    (
      s,
      ap (λ (r : Result (Option Summary) Error × H.World). r.0)
            (on_path-named path (λ p. run_command H (check_args p)) w named)
          ∙ run_command-ended H (check_args path) w child status spawned ended
          ∙ of_status-succeeded H _ _ _ status (some s) succeeded made,
      total,
      none_taken,
    )
