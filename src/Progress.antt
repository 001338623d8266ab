-- ===== src/Progress.antt =====
-- What the nodes of backend/agent/scheduler.py keep of a plan under execution: the definitions of
-- the invariant, and what its parts say. The nodes are taken one by one in the modules below.
pub mod Order
pub mod Selection
pub mod Attempts
pub mod Liveness
pub mod Reopening
pub mod Runs
use refactor_agent.Common.{
  contains, IsDistinct, Subset, ℕ, ◌≤◌, ◌<◌, String, ◌≡◌, ◌≢◌, ◌⊎◌, true, false, some, List, [],
}
use refactor_agent.Dict
use refactor_agent.Plans.Ordering.{NeedsMet, IsOrdered}
use refactor_agent.Plans.{RefactorTask, task_ids}
use refactor_agent.State.{
  TaskStatus, Execution, running, completed, plan_running, plan_completed, plan_failed,
}
use refactor_agent.Scheduler.{max_task_retries, count_of, can_start}

-- A task that the scheduler may still start.
pub record IsStartable (statuses : Dict.Dict TaskStatus) (retries : Dict.Dict ℕ) (id : String)
    : Type 0 where
  pub waits : can_start (Dict.get id statuses) ≡ true
  pub has_attempt : count_of id retries < max_task_retries

module _ (tasks : List RefactorTask) where
  -- The task under way: it is of the plan, waits for nothing, has an attempt left.
  pub record IsAttempt (ex : Execution) (id : String) : Type 0 where
    pub needs : NeedsMet tasks ex.completed_task_ids id
    pub of_plan : contains id (task_ids tasks) ≡ true
    pub unfinished : contains id ex.completed_task_ids ≡ false
    pub underway : Dict.get id ex.task_statuses ≡ some running
    pub has_attempt : count_of id ex.task_retry_counts < max_task_retries
    pub in_run : ex.plan_status ≡ some plan_running

  pub record IsProgress (ex : Execution) : Type 0 where
    -- the completed tasks stand in an order in which each has its dependencies before it
    pub ordered : IsOrdered tasks [] ex.completed_task_ids
    pub once : IsDistinct ex.completed_task_ids
    pub of_plan : Subset ex.completed_task_ids (task_ids tasks)
    pub marked :
        (id : String)
        → contains id ex.completed_task_ids ≡ true
        → Dict.get id ex.task_statuses ≡ some completed
    pub attempt : (id : String) → ex.active_task_id ≡ some id → IsAttempt ex id
    -- of a plan that has not failed, each other task can be started
    pub startable :
        ex.plan_status ≢ some plan_failed
        → (id : String) → contains id (task_ids tasks) ≡ true
        → contains id ex.completed_task_ids ≡ false
        → IsStartable ex.task_statuses ex.task_retry_counts id ⊎ (ex.active_task_id ≡ some id)
    pub left :
        ex.plan_status ≢ some plan_failed
        → (id : String) → count_of id ex.task_retry_counts < max_task_retries
    pub whole : ex.plan_status ≡ some plan_completed → Subset (task_ids tasks) ex.completed_task_ids
    pub bounded : (id : String) → count_of id ex.task_retry_counts ≤ max_task_retries
