-- ===== src/Plans.antt =====
-- backend/agent/plans.py: the refactor plan of the Architect.
pub mod Ordering
pub mod Kahn
pub mod Acyclic
pub mod Start
pub mod Verdict
use refactor_agent.Dict
use refactor_agent.Dict.{Dict}
use refactor_agent.Common.{
  eqb, if◌then◌else◌, ℤ, is_zero, pos, negsuc, length, ℕ, zero, suc, String, ◌≡◌, refl, ap, ◌⊎◌,
  Bool, Option, none, some, List, [], ◌∷◌, ◌++◌, ◌==◌,
}

pub record RefactorTask : Type 0 where
  pub id : String
  pub title : String
  pub description : String
  pub file_path : String
  pub dependencies : List String

-- The version is the literal 1.
pub record RefactorPlan : Type 0 where
  pub summary : String
  pub tasks : List RefactorTask

unfoldable pub task_ids : List RefactorTask → List String
task_ids [] = []
task_ids (t ∷ ts) = t.id ∷ task_ids ts

-- The first task with the id.
unfoldable pub find_task : String → List RefactorTask → Option RefactorTask
find_task id [] = none
find_task id (t ∷ ts) = if t.id == id then some t else find_task id ts

-- The task stands in the list.
abbrev pub Among : RefactorTask → List RefactorTask → Type 0
Among t [] = ⊥
Among t (u ∷ us) = (t ≡ u) ⊎ Among t us

pub length-task_ids : (ts : List RefactorTask) → length (task_ids ts) ≡ length ts
unfolding task_ids
length-task_ids [] = refl
length-task_ids (t ∷ ts) = ap suc (length-task_ids ts)

-- `degree - 1`
abbrev pub lower : ℤ → ℤ
lower (pos zero) = negsuc 0
lower (pos (suc n)) = pos n
lower (negsuc n) = negsuc (suc n)

-- `{task["id"]: len(task["dependencies"]) for task in tasks}`
pub degrees : List RefactorTask → Dict ℤ → Dict ℤ
degrees [] d = d
degrees (t ∷ ts) d = degrees ts (Dict.put t.id (pos (length t.dependencies)) d)

-- `{task["id"]: [] for task in tasks}`
pub no_dependents : List RefactorTask → Dict (List String) → Dict (List String)
no_dependents [] d = d
no_dependents (t ∷ ts) d = no_dependents ts (Dict.put t.id [] d)

-- `for dependency in dependencies: dependents[dependency].append(id)`; `none` is KeyError.
pub append_dependent : String → List String → Dict (List String) → Option (Dict (List String))
append_dependent id [] d = some d
append_dependent id (k ∷ ks) d = elim (Dict.get k d) [
  | none ↦ none
  | some ids ↦ append_dependent id ks (Dict.put k (ids ++ id ∷ []) d)
]

pub append_dependents : List RefactorTask → Dict (List String) → Option (Dict (List String))
unfolding append_dependent
append_dependents [] d = some d
append_dependents (t ∷ ts) d = elim (append_dependent t.id t.dependencies d) [
  | none ↦ none
  | some d' ↦ append_dependents ts d'
]

-- The ids of degree 0, the last first: the list `ready` as a stack with its end at the head.
pub zero_degree : Dict ℤ → List String → List String
zero_degree [] ready = ready
zero_degree ((k, n) ∷ d) ready = zero_degree d (if is_zero n then k ∷ ready else ready)

-- The inner `for` loop: the degrees and `ready`, or KeyError.
pub relax : List String → Dict ℤ → List String → Option (Dict ℤ × List String)
relax [] degree ready = some (degree, ready)
relax (k ∷ ks) degree ready = elim (Dict.get k degree) [
  | none ↦ none
  | some n ↦ relax ks (Dict.put k (lower n) degree) (if is_zero (lower n) then k ∷ ready else ready)
]

-- The `while ready` loop, which returns `visited`. Each round visits a task, so a round of fuel for
-- each task and one for the last test are enough.
pub visit : ℕ → Dict (List String) → Dict ℤ → List String → ℕ → Option ℕ
unfolding relax
visit zero dependents degree ready visited = some visited
visit (suc fuel) dependents degree [] visited = some visited
visit (suc fuel) dependents degree (id ∷ ready) visited = elim (Dict.get id dependents) [
  | none ↦ none
  | some ks ↦ elim (relax ks degree ready) [
    | none ↦ none
    | some (degree', ready') ↦ visit fuel dependents degree' ready' (suc visited)
  ]
]

-- `_assert_acyclic`: whether it returns without the error about a cycle; `none` is KeyError.
unfoldable pub assert_acyclic : List RefactorTask → Option Bool
unfolding degrees no_dependents append_dependents zero_degree visit
assert_acyclic tasks = elim (append_dependents tasks (no_dependents tasks [])) [
  | none ↦ none
  | some dependents ↦
      elim (visit (suc (length tasks)) dependents (degrees tasks [])
        (zero_degree (degrees tasks []) []) 0) [
          | none ↦ none
          | some visited ↦ some (eqb visited (length tasks))
        ]
]
