-- ===== src/Progress/Liveness.antt =====
-- Which task `schedule_next_task_node` of backend/agent/scheduler.py finds to start.
use refactor_agent.Common.{
  Bool-cases, Option-cases, all_of, contains, contains-cons, Subset, length-Subset,
  set_size_of_IsDistinct, String, ◌≡◌, refl, sym, subst, ◌≢◌, ◌⊎◌, inl, inr, Bool, true, false,
  none, some, List, [], ◌∷◌, arith, ◌==◌, eq_iff,
}
use refactor_agent.Plans.{RefactorTask, RefactorPlan, task_ids, Among, length-task_ids}
use refactor_agent.Plans.Ordering.{IsOrdered, Among-contains, task_of}
use refactor_agent.Plans.Acyclic.{IsLinked}
use refactor_agent.State.{Execution, plan_failed}
use refactor_agent.Scheduler.{
  is_ready, first_ready, is_over, start_task, all_done, start_or_block, select_task,
}
use refactor_agent.Progress.{IsProgress}
use refactor_agent.Progress.Selection.{first_ready-some, first_ready-none}

all_of_each :
    (p : String → Bool) (xs : List String)
    → ((x : String) → contains x xs ≡ true → p x ≡ true)
    → all_of p xs ≡ true
unfolding all_of contains
all_of_each p [] h = refl
all_of_each p (x ∷ xs) h =
    ground (arith, h x, eq_iff x x, all_of_each p xs (λ y m. h y (contains-cons x y xs m)))

module _ (plan : RefactorPlan) (l : IsLinked plan.tasks) (ex : Execution)
    (v : IsProgress plan.tasks ex) where
  -- A task that is not completed, all of whose dependencies are.
  abbrev IsOpen : RefactorTask → Type 0
  IsOpen t =
      Among t plan.tasks
      × (contains t.id ex.completed_task_ids ≡ false)
      × Subset t.dependencies ex.completed_task_ids

  -- The ids among these that are the plan's are completed.
  abbrev AreCompleted : List String → Type 0
  AreCompleted ids =
      (k : String)
      → contains k ids ≡ true
      → contains k (task_ids plan.tasks) ≡ true
      → contains k ex.completed_task_ids ≡ true

  AreCompleted-cons :
      (id : String) (ids : List String)
      → (contains id (task_ids plan.tasks) ≡ true → contains id ex.completed_task_ids ≡ true)
      → AreCompleted ids
      → AreCompleted (id ∷ ids)
  AreCompleted-cons id ids first rest k m known = elim (Bool-cases (id == k)) [
    | inl e ↦
        let same = (eq_iff id k).0 e in
        subst (λ j. contains j ex.completed_task_ids ≡ true) same
          (first (subst (λ j. contains j (task_ids plan.tasks) ≡ true) (sym same) known))
    | inr e ↦ rest k (unfold contains in ground arith) known
  ]

  scan_order :
      (seen ids : List String)
      → IsOrdered plan.tasks seen ids
      → AreCompleted seen
      → ((t : RefactorTask) × IsOpen t) ⊎ AreCompleted ids
  scan_order seen [] o before = inr (λ k m. unfold contains in cc)
  scan_order seen (id ∷ ids) (needs, o) before =
      elim (Bool-cases (contains id (task_ids plan.tasks))) [
        | inr out ↦
            let first : contains id (task_ids plan.tasks) ≡ true
                → contains id ex.completed_task_ids ≡ true =
              λ known. absurd (ground arith) in
            elim (scan_order (id ∷ seen) ids o (AreCompleted-cons id seen first before)) [
              | inl found ↦ inl found
              | inr rest ↦ inr (AreCompleted-cons id ids first rest)
            ]
        | inl known ↦ elim (Bool-cases (contains id ex.completed_task_ids)) [
          | inl finished ↦
              elim (scan_order (id ∷ seen) ids o
                (AreCompleted-cons id seen (λ _. finished) before)) [
                  | inl found ↦ inl found
                  | inr rest ↦ inr (AreCompleted-cons id ids (λ _. finished) rest)
                ]
          | inr unfinished ↦
              let (t, among, named) = task_of plan.tasks id known in
              inl (
                t,
                (
                  among,
                  rw named unfinished,
                  λ d dep. before d (needs t among named d dep) (l.known t among d dep),
                ),
              )
        ]
      ]

  open-is_ready :
      ex.active_task_id ≡ none
      → ex.plan_status ≢ some plan_failed
      → (t : RefactorTask) → IsOpen t
      → is_ready ex t ≡ true
  unfolding is_ready
  open-is_ready idle alive t (among, unfinished, met) =
      elim (v.startable alive t.id (Among-contains t plan.tasks among) unfinished) [
        | inr e ↦ absurd (ground arith)
        | inl s ↦ ground (
          arith,
          s.waits,
          s.has_attempt,
          all_of_each (λ d. contains d ex.completed_task_ids) t.dependencies met,
        )
      ]

  module _ (order : List String) (o : IsOrdered plan.tasks [] order)
      (covers : Subset (task_ids plan.tasks) order) where
    some-IsOpen : all_done plan ex ≡ false → (t : RefactorTask) × IsOpen t
    unfolding all_done
    some-IsOpen h = elim (scan_order [] order o (λ k m. unfold contains in cc)) [
      | inl found ↦ found
      | inr all ↦
          let whole : Subset (task_ids plan.tasks) ex.completed_task_ids =
            λ k m. all k (covers k m) m in
          absurd (
            ground (
              arith,
              length-Subset (task_ids plan.tasks) ex.completed_task_ids l.unique whole,
              length-Subset ex.completed_task_ids (task_ids plan.tasks) v.once v.of_plan,
              length-task_ids plan.tasks,
              set_size_of_IsDistinct ex.completed_task_ids v.once,
            ))
    ]

    -- Of a plan with unique ids, each task naming known ids as dependencies and only once, whose
    -- tasks can be listed with every dependency before its task, in an execution that has the
    -- invariant: while the plan is neither failed nor completed, no task is under way and not all
    -- tasks are completed, the scheduler starts a task of the plan; it does not give up for want
    -- of a task that is ready.
    pub select_task-starts :
        ex.active_task_id ≡ none
        → is_over ex.plan_status ≡ false
        → all_done plan ex ≡ false
        → (t : RefactorTask) × Among t plan.tasks
          × (select_task plan ex ≡ (start_task ex t, some t))
    unfolding select_task
    select_task-starts idle going unfinished = elim (Option-cases (first_ready ex plan.tasks)) [
      | inl n ↦
          let (t, here) = some-IsOpen unfinished in
          let r = open-is_ready idle (λ e. ground arith) t here in
          let not_ready = first_ready-none ex plan.tasks n t here.0 in absurd (ground arith)
      | inr (t, e) ↦
          let (m, r) = first_ready-some ex plan.tasks e in
          (t, m, rw going (rw unfinished (rw (e, start_or_block) refl)))
    ]
