-- ===== src/Scheduler.antt =====
-- backend/agent/scheduler.py: the serial scheduler of a plan's tasks. A graph node takes the state
-- and returns the state with the node's partial result merged in, as the graph does.
use refactor_agent.Common.{
  ltb, eqb, if◌then◌else◌, length, all_of, contains, set_size, ℕ, String, Bool, true, false, ◌&&◌,
  Option, none, some, List, [], ◌∷◌, ◌++◌, ◌==◌,
}
use refactor_agent.Dict
use refactor_agent.Dict.{Dict}
use refactor_agent.Messages.{join_text, join_with, Message, str, human}
use refactor_agent.Plans.{RefactorTask, RefactorPlan}
use refactor_agent.State.{
  TaskStatus, PlanStatus, TaskTransition, Execution, State, pending, running, failed, blocked,
  plan_pending, plan_running, plan_completed, plan_failed, plan_fallback,
}
use refactor_agent.Dependencies.{Encoder, render_dependency_context}

abbrev pub max_task_retries : ℕ
max_task_retries = 3

-- `{task["id"]: value for task in tasks}`
unfoldable pub dict_of {ℓ} : {V : Type ℓ} → V → List RefactorTask → Dict V → Dict V
dict_of v [] d = d
dict_of v (t ∷ ts) d = dict_of v ts (Dict.put t.id v d)

unfoldable pub initialize_plan_execution : Option RefactorPlan → Option String → Execution
initialize_plan_execution none plan_error = record {
  task_statuses = [];
  active_task_id = none;
  completed_task_ids = [];
  task_failures = [];
  task_retry_counts = [];
  task_results = [];
  plan_status = some plan_fallback;
  active_task_write_succeeded = false;
  active_task_failure_reason = plan_error;
  task_transition = none;
}
initialize_plan_execution (some plan) plan_error = record {
  task_statuses = dict_of pending plan.tasks [];
  active_task_id = none;
  completed_task_ids = [];
  task_failures = [];
  task_retry_counts = dict_of 0 plan.tasks [];
  task_results = [];
  plan_status = some plan_pending;
  active_task_write_succeeded = false;
  active_task_failure_reason = none;
  task_transition = none;
}

-- `d.get(k, 0)`
abbrev pub count_of : String → Dict ℕ → ℕ
count_of k d = elim (Dict.get k d) [ none ↦ 0 | some n ↦ n ]

-- `task_status in {"pending", "failed"}`
abbrev pub can_start : Option TaskStatus → Bool
can_start (some pending) = true
can_start (some failed) = true
can_start _ = false

-- The two tests of the scheduling loop's body.
unfoldable pub is_ready : Execution → RefactorTask → Bool
is_ready ex t =
    can_start (Dict.get t.id ex.task_statuses)
    && ltb (count_of t.id ex.task_retry_counts) max_task_retries
    && all_of (λ d. contains d ex.completed_task_ids) t.dependencies

unfoldable pub first_ready : Execution → List RefactorTask → Option RefactorTask
first_ready ex [] = none
first_ready ex (t ∷ ts) = if is_ready ex t then some t else first_ready ex ts

-- The ids of the tasks whose status is "pending".
unfoldable pub pending_ids : Dict TaskStatus → List RefactorTask → List String
pending_ids statuses [] = []
pending_ids statuses (t ∷ ts) =
    let rest = pending_ids statuses ts in
    elim (Dict.get t.id statuses) [ some pending ↦ t.id ∷ rest | _ ↦ rest ]

-- `for id in ids: statuses[id] = status`
unfoldable pub mark_all : TaskStatus → List String → Dict TaskStatus → Dict TaskStatus
mark_all status [] d = d
mark_all status (id ∷ ids) d = mark_all status ids (Dict.put id status d)

abbrev pub is_over : Option PlanStatus → Bool
is_over (some plan_completed) = true
is_over (some plan_failed) = true
is_over _ = false

abbrev pub is_fallback : Option PlanStatus → Bool
is_fallback (some plan_fallback) = true
is_fallback _ = false

unfoldable blocked_transition : List String → Option TaskTransition
blocked_transition [] = none
blocked_transition (id ∷ ids) = some (record {
  task_id = id;
  status = blocked;
  reason = some "没有可执行任务，依赖链已被失败任务阻断";
  retry_count = none;
  blocked_task_ids = some (id ∷ ids);
})

-- The exit where no task is ready.
unfoldable pub block_rest : RefactorPlan → Execution → Execution
unfolding pending_ids mark_all blocked_transition
block_rest plan ex =
    let ids = pending_ids ex.task_statuses plan.tasks in
    record ex {
      task_statuses = mark_all blocked ids ex.task_statuses;
      active_task_id = none;
      plan_status = some plan_failed;
      task_transition = blocked_transition ids;
    }

unfoldable pub start_task : Execution → RefactorTask → Execution
start_task ex t = record ex {
  task_statuses = Dict.put t.id running ex.task_statuses;
  active_task_id = some t.id;
  plan_status = some plan_running;
  active_task_write_succeeded = false;
  active_task_failure_reason = none;
  task_transition = some (record {
    task_id = t.id;
    status = running;
    reason = none;
    retry_count = some (count_of t.id ex.task_retry_counts);
    blocked_task_ids = none;
  });
}

-- `len(completed) == len(plan["tasks"])`
unfoldable pub all_done : RefactorPlan → Execution → Bool
all_done plan ex = eqb (set_size ex.completed_task_ids) (length plan.tasks)

pub start_or_block :
    RefactorPlan → Execution → Option RefactorTask → Execution × Option RefactorTask
unfolding block_rest start_task
start_or_block plan ex (some t) = (start_task ex t, some t)
start_or_block plan ex none = (block_rest plan ex, none)

-- What `schedule_next_task_node` does for a plan that is not in fallback, with the task it starts.
unfoldable pub select_task : RefactorPlan → Execution → Execution × Option RefactorTask
unfolding start_or_block first_ready is_ready all_done
select_task plan ex =
    if is_over ex.plan_status
    then (record ex { active_task_id = none; task_transition = none }, none)
    else if all_done plan ex
    then (
      record ex {
        active_task_id = none;
        plan_status = some plan_completed;
        task_transition = none;
      },
      none,
    )
    else start_or_block plan ex (first_ready ex plan.tasks)

-- `', '.join(dependencies) or '无'`
unfoldable named_dependencies : List String → String
unfolding join_with
named_dependencies ds = let names = join_with ", " ds in if names == "" then "无" else names

unfoldable task_context : Encoder → Execution → RefactorTask → Message
unfolding named_dependencies join_text
task_context encode ex t = human (
    str (
      join_text (
        "[CURRENT_TASK_CONTEXT]\n任务 ID: "
        ∷ t.id
        ∷ "\n标题: "
        ∷ t.title
        ∷ "\n目标: "
        ∷ t.description
        ∷ "\n唯一允许写入路径: "
        ∷ t.file_path
        ∷ "\n已完成依赖: "
        ∷ named_dependencies t.dependencies
        ∷ "\n[DEPENDENCY_RESULTS]\n"
        ∷ render_dependency_context encode ex t
        ∷ "\n只完成当前任务；成功写入指定文件后给出简短总结。"
        ∷ [])))

-- The context names the statuses from before the task is set to "running".
-- The node's partial result, merged into the state.
unfoldable pub publish : Encoder → State → Execution × Option RefactorTask → State
unfolding task_context
publish encode s (ex, none) = record s { execution = ex }
publish encode s (ex, some t) = record s {
  messages = s.messages ++ task_context encode s.execution t ∷ [];
  execution = ex;
}

unfoldable pub schedule_next_task_node : Encoder → State → State
unfolding select_task publish
schedule_next_task_node encode s = elim s.refactor_plan [
  | none ↦ record s { execution = record s.execution { task_transition = none } }
  | some plan ↦
      if is_fallback s.plan_status
      then record s { execution = record s.execution { task_transition = none } }
      else publish encode s (select_task plan s.execution)
]
