-- ===== src/Examples/Scheduling.antt =====
-- The scheduler on the plan of two tasks (backend/agent/scheduler.py).
use refactor_agent.Common.{set_size, text_length, ◌≤◌, String, ◌≡◌, refl, Option, none, some, arith}
use refactor_agent.Plans.{RefactorTask, Among}
use refactor_agent.State.{State}
use refactor_agent.Dependencies.{
  max_dependency_context_chars, Encoder, render_dependency_context, Built, raised,
}
use refactor_agent.Dependencies.Bounds.{render_dependency_context-fits}
use refactor_agent.Scheduler.{
  initialize_plan_execution, start_task, all_done, select_task, schedule_next_task_node,
}
use refactor_agent.Reviews.{Json}
use refactor_agent.Progress.{IsProgress}
use refactor_agent.Progress.Runs.{Reach-IsProgress, schedules, here, next}
use refactor_agent.Progress.Liveness.{select_task-starts}
use refactor_agent.Examples.Plan.{
  task_b, two_tasks, plan, first_state, two_tasks-IsLinked, two_tasks_order,
}

abbrev encode : Encoder
encode _ _ _ = "{}"

abbrev build : State → String → Built
build s id = raised "no workspace"

abbrev raw_decode : String → Option Json
raw_decode _ = none

abbrev strip : String → String
strip s = s

idle : first_state.active_task_id ≡ none
unfolding initialize_plan_execution
idle = refl

Reach-IsProgress_example :
    IsProgress two_tasks (schedule_next_task_node encode first_state).execution
Reach-IsProgress_example =
    Reach-IsProgress encode build raw_decode strip plan two_tasks-IsLinked.unique {s = first_state}
      none refl refl (next here (schedules first_state idle))

first_state-IsProgress : IsProgress two_tasks first_state.execution
first_state-IsProgress =
    Reach-IsProgress encode build raw_decode strip plan two_tasks-IsLinked.unique {s = first_state}
      none refl refl here

select_task-starts_example :
    (t : RefactorTask) × Among t two_tasks
    × (select_task plan first_state.execution ≡ (start_task first_state.execution t, some t))
unfolding initialize_plan_execution all_done set_size
select_task-starts_example =
    select_task-starts plan two_tasks-IsLinked first_state.execution first_state-IsProgress
      two_tasks_order.0 two_tasks_order.1 two_tasks_order.2 refl refl refl

render_dependency_context-fits_example :
    text_length (render_dependency_context encode first_state.execution task_b)
    ≤ max_dependency_context_chars
unfolding text_length
render_dependency_context-fits_example =
    render_dependency_context-fits encode 1 (λ truncated omitted h. omega arith)
      first_state.execution task_b (omega arith)
