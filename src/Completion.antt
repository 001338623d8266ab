-- ===== src/Completion.antt =====
-- backend/agent/scheduler.py: `complete_active_task_node`, which closes an attempt at a task by what
-- the write tool reported, and after the last attempt blocks the downstream tasks.
use refactor_agent.Common.{
  leb, eqb, if◌then◌else◌, length, select, contains, ◌+◌, String, Bool, false, not, ◌&&◌, ◌||◌,
  Option, none, some, List, [], ◌∷◌, ◌++◌, ◌==◌,
}
use refactor_agent.Dict
use refactor_agent.Dict.{Dict}
use refactor_agent.Messages.{join_text}
use refactor_agent.Plans.{RefactorPlan}
use refactor_agent.State.{
  TaskStatus, FailureKind, TaskDependencyResult, Execution, State, completed, failed, blocked,
  plan_running, plan_completed, plan_failed, dependency_context_error, budget_overrun,
  task_incomplete,
}
use refactor_agent.Dependencies.{Built, built, raised}
use refactor_agent.Downstream.{downstream_task_ids}
use refactor_agent.Scheduler.{max_task_retries, count_of}

-- `complete_active_task_node`, where the task's result could be fixed.
unfoldable pub finish_task : RefactorPlan → Execution → String → TaskDependencyResult → Execution
finish_task plan ex id result =
    let done =
      if contains id ex.completed_task_ids
      then ex.completed_task_ids
      else ex.completed_task_ids ++ id ∷ [] in
    record ex {
      task_statuses = Dict.put id completed ex.task_statuses;
      active_task_id = none;
      completed_task_ids = done;
      task_failures = Dict.pop id ex.task_failures;
      task_results = Dict.put id result ex.task_results;
      plan_status =
          if eqb (length done) (length plan.tasks) then some plan_completed else some plan_running;
      active_task_write_succeeded = false;
      active_task_failure_reason = none;
      task_transition = some (record {
        task_id = id;
        status = completed;
        reason = none;
        retry_count = some (count_of id ex.task_retry_counts);
        blocked_task_ids = none;
      });
    }

-- `if statuses.get(id) != "failed": statuses[id] = "blocked"`
unfoldable pub block_all : List String → Dict TaskStatus → Dict TaskStatus
block_all [] d = d
block_all (id ∷ ids) d =
    block_all ids (elim (Dict.get id d) [ some failed ↦ d | _ ↦ Dict.put id blocked d ])

-- The same node, where the attempt failed.
unfoldable pub fail_task :
    RefactorPlan → Execution → String → Bool → String → FailureKind → Execution
unfolding block_all
fail_task plan ex id exceeded reason kind =
    let n = count_of id ex.task_retry_counts + 1 in
    let exhausted = exceeded || leb max_task_retries n in
    let statuses = Dict.put id failed ex.task_statuses in
    let below = select (λ k. not (k == id)) (downstream_task_ids plan.tasks (id ∷ [])) in
    record ex {
      task_statuses = if exhausted then block_all below statuses else statuses;
      active_task_id = none;
      task_failures =
          Dict.put id (record { reason = reason; failure_kind = kind; retry_count = n })
            ex.task_failures;
      task_retry_counts = Dict.put id n ex.task_retry_counts;
      plan_status = if exhausted then some plan_failed else some plan_running;
      active_task_write_succeeded = false;
      active_task_failure_reason = none;
      task_transition = some (record {
        task_id = id;
        status = failed;
        reason = some reason;
        retry_count = some n;
        blocked_task_ids = if exhausted then some below else none;
      });
    }

-- `a or b`, of optional texts
abbrev pub or_text : Option String → String → String
or_text none b = b
or_text (some a) b = if a == "" then b else a

-- The reason that the failed attempt is recorded with.
unfoldable failure_reason : State → String
failure_reason s =
    or_text (if s.budget_exceeded then s.budget_reason else s.active_task_failure_reason)
      "Developer 未成功写入当前任务指定文件"

unfoldable pub close_task : RefactorPlan → State → String → Built → Execution
unfolding finish_task fail_task failure_reason join_text
close_task plan s id (built result) = finish_task plan s.execution id result
close_task plan s id (raised exc) =
    fail_task plan s.execution id s.budget_exceeded (join_text ("无法固化任务依赖结果: " ∷ exc ∷ []))
      dependency_context_error

-- Success needs a reported write within the budget, and a result that could be fixed.
unfoldable pub close_attempt : (State → String → Built) → RefactorPlan → State → String → Execution
unfolding close_task
close_attempt build plan s id =
    if s.active_task_write_succeeded && not s.budget_exceeded
    then close_task plan s id (build s id)
    else fail_task plan s.execution id s.budget_exceeded (failure_reason s)
        (if s.budget_exceeded then budget_overrun else task_incomplete)

unfoldable pub complete_active_task_node : (State → String → Built) → State → State
unfolding close_attempt
complete_active_task_node build s = elim s.refactor_plan [
  | none ↦ record s { execution = record s.execution { task_transition = none } }
  | some plan ↦ elim s.active_task_id [
    | none ↦ record s { execution = record s.execution { task_transition = none } }
    | some id ↦
        if id == ""
        then record s { execution = record s.execution { task_transition = none } }
        else record s { execution = close_attempt build plan s id }
  ]
]
