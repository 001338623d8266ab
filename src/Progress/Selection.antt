-- ===== src/Progress/Selection.antt =====
-- `schedule_next_task_node` of backend/agent/scheduler.py: which task it starts, and what it keeps.
use refactor_agent.Common.{
  if◌then◌else◌, Bool-cases, Option-cases, contains, all_of-contains, Subset, Subset-covers,
  set_size_of_IsDistinct, String, ◌≡◌, refl, sym, ap, subst, ◌∙◌, ◌≢◌, ◌⊎◌, inl, inr, true, false,
  Option, none, some, List, [], ◌∷◌, arith, ◌==◌, eq_iff, eq_refl,
}
use refactor_agent.Dict
use refactor_agent.Dict.{Dict, get-put}
use refactor_agent.Plans.{RefactorTask, RefactorPlan, task_ids, Among, length-task_ids}
use refactor_agent.State.{
  TaskStatus, PlanStatus, TaskTransition, Execution, pending, running, completed, blocked,
  plan_completed, plan_failed,
}
use refactor_agent.Scheduler.{
  is_ready, first_ready, pending_ids, mark_all, is_over, block_rest, start_task, all_done,
  start_or_block, select_task,
}
use refactor_agent.Plans.Ordering.{HasUniqueIds, NeedsMet, Among-contains, Among-unique}
use refactor_agent.Progress.{IsStartable, IsAttempt, IsProgress}

pub first_ready-some :
    (ex : Execution) (ts : List RefactorTask) {t : RefactorTask}
    → first_ready ex ts ≡ some t
    → Among t ts × (is_ready ex t ≡ true)
unfolding first_ready
first_ready-some ex [] e = cc
first_ready-some ex (u ∷ us) {t} e = elim (Bool-cases (is_ready ex u)) [
  | inl r ↦
      let same : u ≡ t = ground arith in (inl (sym same), subst (λ x. is_ready ex x ≡ true) same r)
  | inr r ↦ let (m, h) = first_ready-some ex us {t = t} (ground arith) in (inr m, h)
]

pub first_ready-none :
    (ex : Execution) (ts : List RefactorTask)
    → first_ready ex ts ≡ none
    → (t : RefactorTask) → Among t ts
    → is_ready ex t ≡ false
unfolding first_ready
first_ready-none ex [] e t m = absurd m
first_ready-none ex (u ∷ us) e t (inl same) = rw same (ground arith)
first_ready-none ex (u ∷ us) e t (inr m) = first_ready-none ex us (ground arith) t m

pub get-mark_all :
    (status : TaskStatus) (ids : List String) (d : Dict.Dict TaskStatus) (k : String)
    → Dict.get k (mark_all status ids d) ≡ (if contains k ids then some status else Dict.get k d)
unfolding mark_all contains
get-mark_all status [] d k = refl
get-mark_all status (id ∷ ids) d k =
    ground (arith, get-mark_all status ids (Dict.put id status d) k, get-put id k status d)

pub pending_ids-pending :
    (statuses : Dict.Dict TaskStatus) (ts : List RefactorTask) (k : String)
    → contains k (pending_ids statuses ts) ≡ true
    → Dict.get k statuses ≡ some pending
unfolding pending_ids contains
pending_ids-pending statuses [] k h = cc
pending_ids-pending statuses (t ∷ ts) k h =
    ground (arith, eq_iff t.id k, pending_ids-pending statuses ts k)

module _ (plan : RefactorPlan) (ex : Execution) (u : HasUniqueIds plan.tasks)
    (v : IsProgress plan.tasks ex) where
  module _ (t : RefactorTask) (m : Among t plan.tasks) (r : is_ready ex t ≡ true) where
    ready-needs : NeedsMet plan.tasks ex.completed_task_ids t.id
    unfolding is_ready
    ready-needs t' m' e d dep =
        let same = Among-unique t' t plan.tasks u m' m e in
        all_of-contains (λ x. contains x ex.completed_task_ids) t.dependencies d (ground arith)
          (subst (λ x. contains d x.dependencies ≡ true) same dep)

    ready-unfinished : contains t.id ex.completed_task_ids ≡ false
    unfolding is_ready
    ready-unfinished = elim (Bool-cases (contains t.id ex.completed_task_ids)) [
      | inl e ↦ let c = v.marked t.id e in absurd (ground arith)
      | inr e ↦ e
    ]

    start_task-IsAttempt : IsAttempt plan.tasks (start_task ex t) t.id
    unfolding start_task is_ready
    start_task-IsAttempt = record {
      needs = ready-needs;
      of_plan = Among-contains t plan.tasks m;
      unfinished = ready-unfinished;
      underway = get-put t.id t.id running ex.task_statuses ∙ rw (eq_refl t.id);
      has_attempt = ground arith;
      in_run = refl;
    }

    start_task-IsStartable :
        (id : String)
        → IsStartable ex.task_statuses ex.task_retry_counts id
        → IsStartable (Dict.put t.id running ex.task_statuses) ex.task_retry_counts id ⊎ (t.id ≡ id)
    start_task-IsStartable id h = elim (Bool-cases (t.id == id)) [
      | inl e ↦ inr ((eq_iff t.id id).0 e)
      | inr e ↦ inl (record {
        waits = ground (arith, get-put t.id id running ex.task_statuses, h.waits);
        has_attempt = h.has_attempt;
      })
    ]

    start_task-IsProgress :
        ex.active_task_id ≡ none
        → ex.plan_status ≢ some plan_failed
        → IsProgress plan.tasks (start_task ex t)
    unfolding start_task
    start_task-IsProgress idle alive = record {
      ordered = v.ordered;
      once = v.once;
      of_plan = v.of_plan;
      marked = λ id h. ground (
        arith,
        get-put t.id id running ex.task_statuses,
        eq_iff t.id id,
        v.marked id h,
        ready-unfinished,
      );
      attempt = λ id e.
          let same : t.id ≡ id = ground arith in
          subst (IsAttempt plan.tasks (start_task ex t)) same start_task-IsAttempt;
      startable = λ _ id listed out. elim (v.startable alive id listed out) [
        | inl h ↦ elim (start_task-IsStartable id h) [ inl k ↦ inl k | inr e ↦ inr (ap some e) ]
        | inr e ↦ absurd (ground arith)
      ];
      left = λ _. v.left alive;
      whole = λ e. absurd (ground arith);
      bounded = v.bounded;
    }

  block_rest-marked :
      (id : String)
      → contains id ex.completed_task_ids ≡ true
      → Dict.get id (block_rest plan ex).task_statuses ≡ some completed
  unfolding block_rest
  block_rest-marked id h =
      let ids = pending_ids ex.task_statuses plan.tasks in
      ground (
        arith,
        get-mark_all blocked ids ex.task_statuses id,
        pending_ids-pending ex.task_statuses plan.tasks id,
        v.marked id h,
      )

  block_rest-IsProgress : IsProgress plan.tasks (block_rest plan ex)
  unfolding block_rest
  block_rest-IsProgress = record {
    ordered = v.ordered;
    once = v.once;
    of_plan = v.of_plan;
    marked = block_rest-marked;
    attempt = λ id e. absurd (ground arith);
    startable = λ alive. absurd (alive refl);
    left = λ alive. absurd (alive refl);
    whole = λ e. absurd (ground arith);
    bounded = v.bounded;
  }

  -- A plan whose tasks are all completed, told by the number of the completed ones.
  full-covers : all_done plan ex ≡ true → Subset (task_ids plan.tasks) ex.completed_task_ids
  unfolding all_done
  full-covers h = Subset-covers ex.completed_task_ids (task_ids plan.tasks) v.once v.of_plan (
      ground
        (arith, length-task_ids plan.tasks, set_size_of_IsDistinct ex.completed_task_ids v.once))

  idle-IsProgress :
      (status : Option PlanStatus) (transition : Option TaskTransition)
      → ex.active_task_id ≡ none
      → (status ≢ some plan_failed → ex.plan_status ≢ some plan_failed)
      → (status ≡ some plan_completed → Subset (task_ids plan.tasks) ex.completed_task_ids)
      → IsProgress plan.tasks
          (record ex { active_task_id = none; plan_status = status; task_transition = transition })
  idle-IsProgress status transition idle alive full = record {
    ordered = v.ordered;
    once = v.once;
    of_plan = v.of_plan;
    marked = v.marked;
    attempt = λ id e. absurd (ground arith);
    startable = λ ne id listed out. elim (v.startable (alive ne) id listed out) [
      | inl h ↦ inl (record { waits = h.waits; has_attempt = h.has_attempt })
      | inr e ↦ absurd (ground arith)
    ];
    left = λ ne. v.left (alive ne);
    whole = full;
    bounded = v.bounded;
  }

  alive : is_over ex.plan_status ≡ false → ex.plan_status ≢ some plan_failed
  alive h e = ground arith

  -- Where no task is under way, choosing the next one keeps the invariant, on every branch.
  pub select_task-IsProgress :
      ex.active_task_id ≡ none → IsProgress plan.tasks (select_task plan ex).0
  unfolding select_task
  select_task-IsProgress idle = elim (Bool-cases (is_over ex.plan_status)) [
    | inl e ↦ rw e (idle-IsProgress ex.plan_status none idle (λ ne. ne) v.whole)
    | inr e ↦ rw e (elim (Bool-cases (all_done plan ex)) [
      | inl f ↦
          rw f (idle-IsProgress (some plan_completed) none idle (λ _. alive e) (λ _. full-covers f))
      | inr f ↦ rw f (elim (Option-cases (first_ready ex plan.tasks)) [
        | inl g ↦ rw (g, start_or_block) block_rest-IsProgress
        | inr (t, g) ↦
            let (m, r) = first_ready-some ex plan.tasks g in
            rw (g, start_or_block) (start_task-IsProgress t m r idle (alive e))
      ])
    ])
  ]
