-- ===== src/Progress/Runs.antt =====
-- The control plane of backend/agent/workflow.py as far as the scheduler's state goes: the nodes in
-- any order in which the graph may call them, between any steps of the models and tools.
use refactor_agent.Common.{
  if◌then◌else◌, Bool-cases, Option-cases, contains, ℕ, String, ◌≡◌, refl, ◌∙◌, ◌≢◌, inl, inr, Bool,
  not, ◌&&◌, Option, none, some, List, [], ◌∷◌, arith, ◌==◌,
}
use refactor_agent.Dict
use refactor_agent.Dict.{Dict, get-put}
use refactor_agent.Messages.{get_message_text, content_of, last?}
use refactor_agent.Plans.{RefactorTask, RefactorPlan, task_ids}
use refactor_agent.State.{TaskTransition, Execution, State, pending, plan_completed, plan_failed}
use refactor_agent.Dependencies.{Encoder, Built, built, raised}
use refactor_agent.Scheduler.{
  dict_of, initialize_plan_execution, is_fallback, select_task, publish, schedule_next_task_node,
}
use refactor_agent.Completion.{close_task, close_attempt, complete_active_task_node}
use refactor_agent.Reviews.{Json, reopen_by, reopen_tasks_after_review}
use refactor_agent.Plans.Ordering.{HasUniqueIds}
use refactor_agent.Progress.{IsAttempt, IsProgress}
use refactor_agent.Progress.Selection.{select_task-IsProgress}
use refactor_agent.Progress.Attempts.{finish_task-IsProgress, fail_task-IsProgress}
use refactor_agent.Progress.Reopening.{reopen-IsProgress}

get-dict_of :
    {V : Type 0} (v : V) (ts : List RefactorTask) (d : Dict.Dict V) (k : String)
    → Dict.get k (dict_of v ts d) ≡ (if contains k (task_ids ts) then some v else Dict.get k d)
unfolding dict_of contains task_ids
get-dict_of v [] d k = refl
get-dict_of v (t ∷ ts) d k =
    ground (arith, get-dict_of v ts (Dict.put t.id v d) k, get-put t.id k v d)

initialize-IsProgress :
    (plan : RefactorPlan) (e : Option String)
    → IsProgress plan.tasks (initialize_plan_execution (some plan) e)
unfolding initialize_plan_execution contains Dict.get
initialize-IsProgress plan e = record {
  ordered = tt;
  once = tt;
  of_plan = λ k h. cc;
  marked = λ k h. cc;
  attempt = λ k h. absurd (ground arith);
  startable = λ _ k listed _. inl (record {
    waits = ground (arith, get-dict_of pending plan.tasks [] k);
    has_attempt = ground (arith, get-dict_of {V = ℕ} 0 plan.tasks [] k);
  });
  left = λ _ k. ground (arith, get-dict_of {V = ℕ} 0 plan.tasks [] k);
  whole = λ h. absurd (ground arith);
  bounded = λ k. ground (arith, get-dict_of {V = ℕ} 0 plan.tasks [] k);
}

module _ (encode : Encoder) (build : State → String → Built) (raw_decode : String → Option Json)
    (strip : String → String) where
  -- One step. The graph reaches `schedule_task` only behind nodes that leave no task under way, and
  -- the reviewer, whose rejection reopens tasks, only when the plan is completed. Models and tools
  -- write the messages, the budget and the two fields that report a write.
  pub data NodeStep : State → State → Type 0 where
    schedules :
        (s : State) → s.active_task_id ≡ none → NodeStep s (schedule_next_task_node encode s)
    completes : (s : State) → NodeStep s (complete_active_task_node build s)
    reopens :
        (s : State) (ex : Execution)
        → s.plan_status ≡ some plan_completed
        → reopen_tasks_after_review raw_decode strip s ≡ some ex
        → NodeStep s (record s { execution = ex })
    elsewhere :
        (s s' : State) (written : Bool) (reason : Option String)
        → s'.refactor_plan ≡ s.refactor_plan
        → s'.execution ≡ record s.execution {
          active_task_write_succeeded = written;
          active_task_failure_reason = reason;
        }
        → NodeStep s s'

  pub data Reach (s : State) : State → Type 0 where
    here : Reach s s
    next : {t u : State} → Reach s t → NodeStep t u → Reach s u

  module _ (plan : RefactorPlan) (u : HasUniqueIds plan.tasks) where
    abbrev pub Keeps : State → Type 0
    Keeps s = (s.refactor_plan ≡ some plan) × IsProgress plan.tasks s.execution

    -- The fields that only report do not matter to the invariant.
    report-IsProgress :
        (ex : Execution) (written : Bool) (reason : Option String)
        (transition : Option TaskTransition)
        → IsProgress plan.tasks ex
        → IsProgress plan.tasks (record ex {
          active_task_write_succeeded = written;
          active_task_failure_reason = reason;
          task_transition = transition;
        })
    report-IsProgress ex written reason transition v = record {
      ordered = v.ordered;
      once = v.once;
      of_plan = v.of_plan;
      marked = v.marked;
      attempt = λ id e.
          let a = v.attempt id e in
          record {
            needs = a.needs;
            of_plan = a.of_plan;
            unfinished = a.unfinished;
            underway = a.underway;
            has_attempt = a.has_attempt;
            in_run = a.in_run;
          };
      startable = v.startable;
      left = v.left;
      whole = v.whole;
      bounded = v.bounded;
    }

    publish-Keeps :
        (s : State) (q : Execution × Option RefactorTask)
        → s.refactor_plan ≡ some plan
        → IsProgress plan.tasks q.0
        → Keeps (publish encode s q)
    unfolding publish
    publish-Keeps s (ex, none) p v = (p, v)
    publish-Keeps s (ex, some t) p v = (p, v)

    schedule-Keeps :
        (s : State) → s.active_task_id ≡ none → Keeps s → Keeps (schedule_next_task_node encode s)
    unfolding schedule_next_task_node
    schedule-Keeps s idle (p, v) =
        rw (p, schedule_next_task_node)
          (elim (Bool-cases (is_fallback s.plan_status)) [
            | inl e ↦ rw e (p, report-IsProgress s.execution _ _ none v)
            | inr e ↦ rw e (
                publish-Keeps s (select_task plan s.execution) p
                  (select_task-IsProgress plan s.execution u v idle))
          ])

    close_task-IsProgress :
        (s : State) (id : String) (b : Built)
        → IsProgress plan.tasks s.execution
        → s.active_task_id ≡ some id
        → IsAttempt plan.tasks s.execution id
        → s.plan_status ≢ some plan_failed
        → IsProgress plan.tasks (close_task plan s id b)
    unfolding close_task
    close_task-IsProgress s id (built result) v e a alive =
        finish_task-IsProgress plan s.execution u v id a e result alive
    close_task-IsProgress s id (raised exc) v e a alive =
        fail_task-IsProgress plan s.execution u v id a e _ _ _ alive

    close_attempt-IsProgress :
        (s : State) (id : String)
        → IsProgress plan.tasks s.execution
        → s.active_task_id ≡ some id
        → IsProgress plan.tasks (close_attempt build plan s id)
    unfolding close_attempt
    close_attempt-IsProgress s id v e =
        let a = v.attempt id e in
        let alive : s.plan_status ≢ some plan_failed = λ f. ground (arith, a.in_run) in
        elim (Bool-cases (s.active_task_write_succeeded && not s.budget_exceeded)) [
          | inl w ↦ rw w (close_task-IsProgress s id (build s id) v e a alive)
          | inr w ↦ rw w (fail_task-IsProgress plan s.execution u v id a e _ _ _ alive)
        ]

    complete-Keeps : (s : State) → Keeps s → Keeps (complete_active_task_node build s)
    unfolding complete_active_task_node
    complete-Keeps s (p, v) =
        rw (p, complete_active_task_node)
          (elim (Option-cases s.active_task_id) [
            | inl e ↦
                rw (e, complete_active_task_node) (p, report-IsProgress s.execution _ _ none v)
            | inr (id, e) ↦
                rw (e, complete_active_task_node)
                  (elim (Bool-cases (id == "")) [
                    | inl f ↦ rw f (p, report-IsProgress s.execution _ _ none v)
                    | inr f ↦ rw f (p, close_attempt-IsProgress s id v e)
                  ])
          ])

    reopened_by :
        (s : State) (ex : Execution)
        → s.plan_status ≡ some plan_completed
        → reopen_tasks_after_review raw_decode strip s ≡ some ex
        → s.refactor_plan ≡ some plan
        → (content : String) × (ex ≡ reopen_by raw_decode strip plan s.execution content)
    unfolding reopen_tasks_after_review
    reopened_by s ex over e p = elim (Option-cases (last? s.messages)) [
      | inl f ↦ absurd (ground arith)
      | inr (m, f) ↦ (get_message_text (content_of m), ground arith)
    ]

    reopen-Keeps :
        (s : State) (ex : Execution)
        → s.plan_status ≡ some plan_completed
        → reopen_tasks_after_review raw_decode strip s ≡ some ex
        → Keeps s
        → Keeps (record s { execution = ex })
    unfolding reopen_by
    reopen-Keeps s ex over e (p, v) =
        let (content, same) = reopened_by s ex over e p in
        (p, rw same (reopen-IsProgress plan.tasks _ _ s.execution v over))

    NodeStep-Keeps : {s t : State} → NodeStep s t → Keeps s → Keeps t
    NodeStep-Keeps (schedules s idle) k = schedule-Keeps s idle k
    NodeStep-Keeps (completes s) k = complete-Keeps s k
    NodeStep-Keeps (reopens s ex over e) k = reopen-Keeps s ex over e k
    NodeStep-Keeps (elsewhere s s' written reason p e) (q, v) =
        (p ∙ q, rw e (report-IsProgress s.execution written reason s.execution.task_transition v))

    Reach-Keeps : {s t : State} → Reach s t → Keeps s → Keeps t
    Reach-Keeps here k = k
    Reach-Keeps (next r st) k = NodeStep-Keeps st (Reach-Keeps r k)

    -- Of a plan with unique ids, from the execution that the Architect's plan starts with, in
    -- every reachable state: the completed tasks stand in dependency order, each once and marked
    -- "completed"; the task under way has its dependencies completed and an attempt left; a plan
    -- that has not failed can still start each task that is not completed; a plan that is
    -- completed has completed every task; and no task has been tried more than three times.
    pub Reach-IsProgress :
        {s t : State} (e : Option String)
        → s.refactor_plan ≡ some plan
        → s.execution ≡ initialize_plan_execution (some plan) e
        → Reach s t
        → IsProgress plan.tasks t.execution
    Reach-IsProgress e p i r = (Reach-Keeps r (p, rw i (initialize-IsProgress plan e))).1
