-- ===== src/Progress/Attempts.antt =====
-- `complete_active_task_node` of backend/agent/scheduler.py: what closing an attempt keeps.
use refactor_agent.Common.{
  Bool-cases, select, contains, contains-append, contains-select, Subset, Subset-covers,
  IsDistinct-snoc, ◌+◌, ◌<◌, String, ◌≡◌, refl, ◌≢◌, inl, inr, Bool, true, false, not, some, List,
  [], ◌∷◌, ◌++◌, arith, ◌==◌, eq_iff,
}
use refactor_agent.Dict
use refactor_agent.Dict.{Dict, get-put}
use refactor_agent.Downstream.{downstream_task_ids}
use refactor_agent.Scheduler.{max_task_retries, count_of}
use refactor_agent.Downstream.Exact.{downstream_task_ids_lem}
use refactor_agent.Plans.{RefactorPlan, task_ids, length-task_ids}
use refactor_agent.State.{
  TaskStatus, FailureKind, TaskDependencyResult, Execution, completed, failed, blocked, plan_failed,
}
use refactor_agent.Completion.{finish_task, block_all, fail_task}
use refactor_agent.Plans.Ordering.{HasUniqueIds, IsOrdered, IsOrdered-snoc, NeedsMet-mono}
use refactor_agent.Progress.{IsStartable, IsAttempt, IsProgress}
use refactor_agent.Progress.Order.{Downstream-unfinished}

-- Marking a task as blocked leaves every other task's status alone, and no status becomes "completed".
pub get-block_all :
    (ids : List String) (d : Dict.Dict TaskStatus) (k : String)
    → contains k ids ≡ false
    → Dict.get k (block_all ids d) ≡ Dict.get k d
unfolding block_all contains
get-block_all [] d k h = refl
get-block_all (id ∷ ids) d k h = ground (
  arith,
  get-block_all ids d k,
  get-block_all ids (Dict.put id blocked d) k,
  get-put id k blocked d,
)

module _ (plan : RefactorPlan) (ex : Execution) (u : HasUniqueIds plan.tasks)
    (v : IsProgress plan.tasks ex) (id : String) (a : IsAttempt plan.tasks ex id)
    (under_way : ex.active_task_id ≡ some id) where
  finish-IsOrdered : IsOrdered plan.tasks [] (ex.completed_task_ids ++ id ∷ [])
  unfolding contains
  finish-IsOrdered =
      IsOrdered-snoc plan.tasks [] ex.completed_task_ids id v.ordered (λ more sub.
        NeedsMet-mono plan.tasks ex.completed_task_ids more id (λ k h. sub k h) a.needs)

  finish_task-marked :
      (k : String)
      → contains k (ex.completed_task_ids ++ id ∷ []) ≡ true
      → Dict.get k (Dict.put id completed ex.task_statuses) ≡ some completed
  unfolding contains
  finish_task-marked k h = ground (
    arith,
    contains-append k ex.completed_task_ids (id ∷ []),
    get-put id k completed ex.task_statuses,
    v.marked k,
  )

  others-IsStartable :
      (k : String)
      → ex.plan_status ≢ some plan_failed
      → contains k (task_ids plan.tasks) ≡ true
      → contains k ex.completed_task_ids ≡ false
      → (id == k) ≡ false
      → IsStartable ex.task_statuses ex.task_retry_counts k
  others-IsStartable k alive listed out ne = elim (v.startable alive k listed out) [
    | inl h ↦ h
    | inr e ↦ absurd (ground (arith, eq_iff id k))
  ]

  finish-of_plan : Subset (ex.completed_task_ids ++ id ∷ []) (task_ids plan.tasks)
  unfolding contains
  finish-of_plan k h = elim (Bool-cases (id == k)) [
    | inl e ↦ rw (← (eq_iff id k).0 e) a.of_plan
    | inr e ↦ v.of_plan k (ground (arith, contains-append k ex.completed_task_ids (id ∷ [])))
  ]

  finish_task-IsStartable :
      (k : String)
      → ex.plan_status ≢ some plan_failed
      → contains k (task_ids plan.tasks) ≡ true
      → contains k (ex.completed_task_ids ++ id ∷ []) ≡ false
      → IsStartable (Dict.put id completed ex.task_statuses) ex.task_retry_counts k
  unfolding contains
  finish_task-IsStartable k alive listed out =
      let e = contains-append k ex.completed_task_ids (id ∷ []) in
      let ne : (id == k) ≡ false = ground arith in
      let s = others-IsStartable k alive listed (ground arith) ne in
      record {
        waits = ground (arith, get-put id k completed ex.task_statuses, s.waits);
        has_attempt = s.has_attempt;
      }

  -- Closing a successful attempt keeps the invariant.
  pub finish_task-IsProgress :
      (result : TaskDependencyResult)
      → ex.plan_status ≢ some plan_failed
      → IsProgress plan.tasks (finish_task plan ex id result)
  unfolding finish_task
  finish_task-IsProgress result alive = rw a.unfinished (record {
    ordered = finish-IsOrdered;
    once = IsDistinct-snoc ex.completed_task_ids id v.once a.unfinished;
    of_plan = finish-of_plan;
    marked = finish_task-marked;
    attempt = λ k e. absurd (ground arith);
    left = λ _. v.left alive;
    startable = λ _ k listed out. inl (finish_task-IsStartable k alive listed out);
    whole = λ e.
        Subset-covers (ex.completed_task_ids ++ id ∷ []) (task_ids plan.tasks)
          (IsDistinct-snoc ex.completed_task_ids id v.once a.unfinished) finish-of_plan
          (ground (arith, length-task_ids plan.tasks));
    bounded = v.bounded;
  })

  downstream-unfinished :
      (k : String)
      → contains k (downstream_task_ids plan.tasks (id ∷ [])) ≡ true
      → contains k ex.completed_task_ids ≡ false
  unfolding contains
  downstream-unfinished k h =
      Downstream-unfinished plan.tasks (id ∷ []) ex.completed_task_ids v.ordered
        (λ r e. rw (← (eq_iff id r).0 (ground arith)) a.unfinished)
        ((downstream_task_ids_lem plan.tasks (id ∷ []) k).0 h).1

  -- The statuses after a failed attempt: no completed task loses its status.
  fail_task-marked :
      (exceeded : Bool) (reason : String) (kind : FailureKind) (k : String)
      → contains k ex.completed_task_ids ≡ true
      → Dict.get k (fail_task plan ex id exceeded reason kind).task_statuses ≡ some completed
  unfolding fail_task
  fail_task-marked exceeded reason kind k h =
      let below = downstream_task_ids plan.tasks (id ∷ []) in
      ground (
        arith,
        get-block_all (select (λ j. not (j == id)) below) (Dict.put id failed ex.task_statuses) k,
        contains-select (λ j. not (j == id)) k below,
        downstream-unfinished k,
        get-put id k failed ex.task_statuses,
        v.marked k,
        a.unfinished,
        eq_iff id k,
      )

  fail_task-IsStartable :
      (exceeded : Bool) (reason : String) (kind : FailureKind) (k : String)
      → ex.plan_status ≢ some plan_failed
      → (fail_task plan ex id exceeded reason kind).plan_status ≢ some plan_failed
      → contains k (task_ids plan.tasks) ≡ true
      → contains k ex.completed_task_ids ≡ false
      → IsStartable
          (fail_task plan ex id exceeded reason kind).task_statuses
          (fail_task plan ex id exceeded reason kind).task_retry_counts
          k
  unfolding fail_task
  fail_task-IsStartable exceeded reason kind k alive goes_on listed out =
      let n = count_of id ex.task_retry_counts + 1 in
      elim (Bool-cases (id == k)) [
        | inl e ↦ record {
          waits = ground (arith, get-put id k failed ex.task_statuses);
          has_attempt = ground (arith, get-put id k n ex.task_retry_counts, goes_on);
        }
        | inr e ↦
            let s = others-IsStartable k alive listed out e in
            record {
              waits = ground (arith, get-put id k failed ex.task_statuses, s.waits, goes_on);
              has_attempt = ground (arith, get-put id k n ex.task_retry_counts, s.has_attempt);
            }
      ]

  fail_task-left :
      (exceeded : Bool) (reason : String) (kind : FailureKind) (k : String)
      → ex.plan_status ≢ some plan_failed
      → (fail_task plan ex id exceeded reason kind).plan_status ≢ some plan_failed
      → count_of k (fail_task plan ex id exceeded reason kind).task_retry_counts < max_task_retries
  unfolding fail_task
  fail_task-left exceeded reason kind k alive goes_on = ground (
    arith,
    get-put id k (count_of id ex.task_retry_counts + 1) ex.task_retry_counts,
    goes_on,
    v.left alive k,
  )

  -- Closing a failed attempt keeps the invariant, whether another attempt is left or not.
  pub fail_task-IsProgress :
      (exceeded : Bool) (reason : String) (kind : FailureKind)
      → ex.plan_status ≢ some plan_failed
      → IsProgress plan.tasks (fail_task plan ex id exceeded reason kind)
  unfolding fail_task
  fail_task-IsProgress exceeded reason kind alive = record {
    ordered = v.ordered;
    once = v.once;
    of_plan = v.of_plan;
    marked = fail_task-marked exceeded reason kind;
    attempt = λ k e. absurd (ground arith);
    startable = λ goes_on k listed out.
        inl (fail_task-IsStartable exceeded reason kind k alive goes_on listed out);
    left = λ goes_on k. fail_task-left exceeded reason kind k alive goes_on;
    whole = λ e. absurd (ground arith);
    bounded = λ k. ground (
      arith,
      get-put id k (count_of id ex.task_retry_counts + 1) ex.task_retry_counts,
      v.bounded k,
      a.has_attempt,
    );
  }
