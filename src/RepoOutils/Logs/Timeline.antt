-- ===== src/RepoOutils/Logs/Timeline.antt =====
-- logs.rs: the timeline of a log, a tree of its finished steps. The source recurs from a step to its
-- children without a bound: here on fuel, and `none` means that it ran out.
pub mod Ends
use procurator.Prelude.{
  ℕ, zero, suc, ◌-◌, String, Bool, true, false, not, ◌&&◌, Option, none, some, List, [], ◌∷◌, ◌==◌,
  if◌then◌else◌, retain,
}
use mathlib.Core.Option
use procurator.RepoOutils.Logs.{FinishedStep}

mutual
  pub data TimelineStep : Type 0 where
    timeline_step : String → ℕ → Timeline → TimelineStep

  pub data Timeline : Type 0 where
    no_steps : Timeline
    step_then : TimelineStep → Timeline → Timeline

-- `contains_key` of the map of the finished steps by their ids.
unfoldable pub contains_key : List FinishedStep → ℕ → Bool
contains_key [] id = false
contains_key (s ∷ steps) id = let rest = contains_key steps id in if s.id == id then true else rest

-- The parent is among the steps.
unfoldable pub has_parent : List FinishedStep → Option ℕ → Bool
has_parent steps none = false
has_parent steps (some id) = contains_key steps id

unfoldable pub is_id : ℕ → Option ℕ → Bool
is_id id none = false
is_id id (some p) = p == id

abbrev pub is_root : List FinishedStep → FinishedStep → Bool
is_root steps s = (s.level == 3) && not (has_parent steps s.parent)

abbrev pub is_child : FinishedStep → FinishedStep → Bool
is_child s child = (child.level == 3) && is_id s.id child.parent

-- The trees of some steps, in order.
unfoldable pub each_tree :
    (FinishedStep → Option TimelineStep) → List FinishedStep → Option Timeline
each_tree build [] = some no_steps
each_tree build (s ∷ steps) =
    let rest = each_tree build steps in
    elim (build s) [ none ↦ none | some tree ↦ Option.map (step_then tree) rest ]

-- `completed_at.duration_since(started_at).unwrap_or_default()`
unfoldable pub build_step_tree : ℕ → List FinishedStep → FinishedStep → Option TimelineStep
build_step_tree zero all_steps s = none
build_step_tree (suc fuel) all_steps s =
    Option.map (timeline_step s.text (s.completed_at - s.started_at))
      (each_tree (build_step_tree fuel all_steps) (retain (is_child s) all_steps))

unfoldable pub build_timeline : ℕ → List FinishedStep → Option Timeline
build_timeline fuel finished_steps =
    each_tree (build_step_tree fuel finished_steps) (retain (is_root finished_steps) finished_steps)
