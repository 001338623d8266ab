-- ===== src/Downstream.antt =====
-- backend/agent/scheduler.py: `_downstream_task_ids`, the tasks that a failure or a review reaches.
pub mod Exact
use refactor_agent.Common.{
  if◌then◌else◌, length, select, any_of, contains, ℕ, zero, suc, String, Bool, true, false, not,
  ◌&&◌, ◌||◌, List, [], ◌∷◌,
}
use refactor_agent.Plans.{RefactorTask, task_ids}

-- `any(dependency in affected for dependency in task["dependencies"])`
pub touches : List String → RefactorTask → Bool
touches affected t = any_of (λ d. contains d affected) t.dependencies

-- The two tests of the `for` loop's body.
pub joins : List String → RefactorTask → Bool
joins affected t = not (contains t.id affected) && touches affected t

-- `_downstream_task_ids`: one round of the `for` loop. It adds to the set as it goes, so a later
-- task sees what an earlier one added. The second part is the flag `changed`.
pub spread : List RefactorTask → List String → Bool → List String × Bool
spread [] affected changed = (affected, changed)
spread (t ∷ ts) affected changed =
    spread ts (if joins affected t then t.id ∷ affected else affected) (changed || joins affected t)

-- The `while changed` loop, with one round of fuel for each task and one for the last.
pub spread_all : ℕ → List RefactorTask → List String → List String
spread_all zero tasks affected = affected
spread_all (suc fuel) tasks affected =
    let (next, changed) = spread tasks affected false in
    elim changed [ true ↦ spread_all fuel tasks next | false ↦ next ]

pub downstream_task_ids : List RefactorTask → List String → List String
downstream_task_ids tasks roots =
    select (λ id. contains id (spread_all (suc (length tasks)) tasks roots)) (task_ids tasks)
