-- ===== src/Ci/Queue/Reads.antt =====
-- job_queue.rs: the two reads with a condition or a format of their own. The LIKE of the database and
-- the reading of JSON are parameters.
use procurator.Prelude.{
  ℕ, String, ◌<>◌, Bool, Option, none, some, List, [], ◌∷◌, ◌==◌, if◌then◌else◌, retain, Result, ok,
  err, pure, fail, ◌>>=◌,
}
use procurator.Ci.Builds.{BuildJob}
use procurator.Ci.Queue.{invalid_data, Action, query, newest_first}

-- LIMIT 1
unfoldable pub first : List BuildJob → Option BuildJob
first [] = none
first (b ∷ bs) = some b

unfoldable pub get_latest_build_for_repo :
    (String → String → Bool) → String → Action (Option BuildJob)
get_latest_build_for_repo like repo_path_prefix = query λ d.
    (first (newest_first (retain (λ r. like r.repo_path (repo_path_prefix <> "%")) d.builds)), d)

-- WHERE build_id = ?
unfoldable pub find_summary : ℕ → List (ℕ × String) → Option String
find_summary id [] = none
find_summary id ((k, json) ∷ rows) = if k == id then some json else find_summary id rows

-- `BuildSummary` is a unit struct.
unfoldable pub read_summary :
    (String → Result (Unit {0}) String) → Option String → Action (Option (Unit {0}))
read_summary from_json none = pure none
read_summary from_json (some json) = elim (from_json json) [
  | ok summary ↦ pure (some summary)
  | err e ↦ fail (invalid_data ("Failed to deserialize build summary: " <> e))
]

unfoldable pub get_build_summary :
    (String → Result (Unit {0}) String) → ℕ → Action (Option (Unit {0}))
get_build_summary from_json id = do
  summary_json ← query (λ d. (find_summary id d.build_summaries, d))
  read_summary from_json summary_json
