-- ===== src/Progress/Reopening.antt =====
-- `reopen_tasks_after_review` of backend/agent/scheduler.py: what reopening tasks keeps.
use refactor_agent.Common.{
  Bool-cases, select, contains, contains-select, IsDistinct-select, ◌<◌, String, ◌≡◌, inl, inr,
  Bool, true, not, some, List, [], arith,
}
use refactor_agent.Dict
use refactor_agent.Dict.{Dict}
use refactor_agent.Plans.{RefactorTask, Among}
use refactor_agent.State.{Execution, pending, completed, plan_completed}
use refactor_agent.Downstream.{downstream_task_ids}
use refactor_agent.Downstream.Exact.{Downstream, downstream_task_ids_lem}
use refactor_agent.Scheduler.{max_task_retries, count_of, mark_all}
use refactor_agent.Reviews.{reopen}
use refactor_agent.Plans.Ordering.{Among-contains, IsOrdered-select}
use refactor_agent.Progress.{IsProgress}
use refactor_agent.Progress.Selection.{get-mark_all}

module _ (tasks : List RefactorTask) (ids : List String) (summary : String) (ex : Execution)
    (v : IsProgress tasks ex) where
  abbrev reopened : List String
  reopened = downstream_task_ids tasks ids

  abbrev stays : String → Bool
  stays id = not (contains id reopened)

  -- A task that is not reopened depends on no reopened task.
  stays-dependency :
      (t : RefactorTask) (d : String)
      → Among t tasks
      → contains d t.dependencies ≡ true
      → stays t.id ≡ true
      → stays d ≡ true
  stays-dependency t d m dep h = elim (Bool-cases (contains d reopened)) [
    | inr e ↦ rw e
    | inl e ↦
        let below = Downstream.step t d m dep ((downstream_task_ids_lem tasks ids d).0 e).1 in
        let k = (downstream_task_ids_lem tasks ids t.id).1 (Among-contains t tasks m, below) in
        absurd (ground arith)
  ]

  reopen-marked :
      (id : String)
      → contains id (select stays ex.completed_task_ids) ≡ true
      → Dict.get id (mark_all pending reopened ex.task_statuses) ≡ some completed
  reopen-marked id h = ground (
    arith,
    contains-select stays id ex.completed_task_ids,
    get-mark_all pending reopened ex.task_statuses id,
    v.marked id,
  )

  -- Reopening tasks of a completed plan keeps the invariant: the completed tasks that stay are still
  -- in dependency order, and each reopened one can be started.
  pub reopen-IsProgress :
      ex.plan_status ≡ some plan_completed → IsProgress tasks (reopen tasks ids summary ex)
  unfolding reopen
  reopen-IsProgress over = record {
    ordered =
        unfold select in
        IsOrdered-select tasks stays [] ex.completed_task_ids stays-dependency v.ordered;
    once = IsDistinct-select stays ex.completed_task_ids v.once;
    of_plan = λ k h. v.of_plan k (ground (arith, contains-select stays k ex.completed_task_ids));
    marked = reopen-marked;
    attempt = λ k e. absurd (ground arith);
    startable = λ _ k listed out. inl (record {
      waits = ground (
        arith,
        contains-select stays k ex.completed_task_ids,
        get-mark_all pending reopened ex.task_statuses k,
        v.whole over k listed,
      );
      has_attempt = left k;
    });
    left = λ _. left;
    whole = λ e. absurd (ground arith);
    bounded = v.bounded;
  }
    where
      left : (id : String) → count_of id ex.task_retry_counts < max_task_retries
      left = v.left (λ e. ground arith)
