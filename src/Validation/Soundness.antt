-- ===== src/Validation/Soundness.antt =====
-- What a plan that backend/agent/plans.py accepts is like.
use refactor_agent.Common.{
  eqb, Bool-cases, length, contains, contains-cons_self, set_size, IsDistinct, Subset, String, ◌≡◌,
  refl, sym, subst, inl, inr, true, false, List, [], ◌∷◌, arith, eq_iff,
}
use refactor_agent.Validation.{
  PlanLibrary, check_task, check_tasks, close_plan, normalize_plan, valid,
}
use refactor_agent.Plans.Acyclic.{IsLinked}
use refactor_agent.Plans.Verdict.{assert_acyclic-exact}
use refactor_agent.Validation.Task.{
  set_size-IsDistinct, Validated-cases, IsPlace, identities, IsChecked, check_task-valid,
}
use refactor_agent.Plans.{RefactorTask, RefactorPlan, task_ids, Among}
use refactor_agent.Plans.Ordering.{IsOrdered}

cons_same :
    (u t : RefactorTask) (us ts : List RefactorTask)
    → u.id ≡ t.id
    → task_ids us ≡ task_ids ts
    → task_ids (u ∷ us) ≡ task_ids (t ∷ ts)
unfolding task_ids
cons_same u t us ts e es = rw e (rw es refl)

module _ (lib : PlanLibrary) where
  open lib use {paths, suffix}
  open paths use {casefold}

  abbrev AreChecked : List String → List String → List RefactorTask → Type 0
  AreChecked known seen us =
      ((u : RefactorTask)
        → Among u us
        → IsDistinct u.dependencies × Subset u.dependencies known × IsPlace lib u.file_path)
      × IsDistinct (identities lib us)
      × ((k : String) → contains k seen ≡ true → contains k (identities lib us) ≡ false)

  AreChecked-cons :
      (known seen : List String) (u : RefactorTask) (us : List RefactorTask)
      → IsChecked lib known seen u
      → AreChecked known (casefold u.file_path ∷ seen) us
      → AreChecked known seen (u ∷ us)
  unfolding contains
  AreChecked-cons known seen u us (once, covered, place, free) (each, apart, fresh) = (
    λ v m. elim m [
      | inl e ↦
          subst
            (λ w. IsDistinct w.dependencies × Subset w.dependencies known × IsPlace lib w.file_path)
            (sym e) (once, covered, place)
      | inr n ↦ each v n
    ],
    (fresh (casefold u.file_path) (contains-cons_self (casefold u.file_path) seen), apart),
    λ k h. ground (arith, fresh k, eq_iff (casefold u.file_path) k, h, free),
  )

  check_tasks-valid :
      (known seen : List String) (ts us : List RefactorTask)
      → check_tasks lib known seen ts ≡ valid us
      → (task_ids us ≡ task_ids ts) × AreChecked known seen us
  unfolding check_tasks
  check_tasks-valid known seen [] us h =
      let same : [] ≡ us = ground arith in
      subst (λ vs. (task_ids vs ≡ task_ids []) × AreChecked known seen vs) same
        (refl, (λ u m. absurd m, tt, λ k h. unfold contains in refl))
  check_tasks-valid known seen (t ∷ ts) us h =
      elim (Validated-cases (check_task lib known seen t)) [
        | inl (e, r) ↦ absurd (ground (arith, r))
        | inr (u, r) ↦
            let rest = check_tasks lib known (casefold u.file_path ∷ seen) ts in
            elim (Validated-cases rest) [
              | inl (e, n) ↦ absurd (ground (arith, r, n))
              | inr (vs, n) ↦
                  let made : valid (u ∷ vs) ≡ valid us = ground (arith, r, n) in
                  let same : u ∷ vs ≡ us = ground arith in
                  let (id_same, checked) = check_task-valid lib known seen t u r in
                  let (ids_same, all_checked) =
                    check_tasks-valid known (casefold u.file_path ∷ seen) ts vs n in
                  subst (λ ws. (task_ids ws ≡ task_ids (t ∷ ts)) × AreChecked known seen ws) same
                    (
                      cons_same u t vs ts id_same ids_same,
                      AreChecked-cons known seen u vs checked all_checked,
                    )
            ]
      ]

  close_plan-valid :
      (summary : String) (tasks : List RefactorTask) (plan : RefactorPlan)
      → IsLinked tasks
      → close_plan lib summary tasks ≡ valid plan
      → (record { summary = summary; tasks = tasks } ≡ plan)
        × ((order : List String) × IsOrdered tasks [] order × Subset (task_ids tasks) order)
  unfolding close_plan
  close_plan-valid summary tasks plan l h =
      let (verdict, run, exact) = assert_acyclic-exact tasks l in
      elim (Bool-cases verdict) [
        | inr n ↦ absurd (ground (arith, run, n))
        | inl y ↦ (ground (arith, run, y), exact.0 y)
      ]

  -- What a plan must be for the scheduler.
  pub record IsPlan (plan : RefactorPlan) : Type 0 where
    pub linked : IsLinked plan.tasks
    pub order :
        (order : List String) × IsOrdered plan.tasks [] order × Subset (task_ids plan.tasks) order
    pub placed : (t : RefactorTask) → Among t plan.tasks → IsPlace lib t.file_path
    pub one_file_each : IsDistinct (identities lib plan.tasks)

  -- A plan that `normalize_plan` (`validate_refactor_plan`, from the value that pydantic has
  -- parsed) accepts has unique ids, its tasks name known ids as dependencies and each only once,
  -- they can be listed with every dependency before its task, each task's path is a path that the
  -- path policy gives back and ends in ".py", and no two tasks write the same file, whatever the
  -- case of its letters.
  pub normalize_plan-IsPlan :
      (parsed plan : RefactorPlan) → normalize_plan lib parsed ≡ valid plan → IsPlan plan
  unfolding normalize_plan close_plan
  normalize_plan-IsPlan parsed plan h =
      elim (Bool-cases (eqb (length (task_ids parsed.tasks)) (set_size (task_ids parsed.tasks)))) [
        | inr n ↦ absurd (ground (arith, n))
        | inl once ↦
            elim (Validated-cases (check_tasks lib (task_ids parsed.tasks) [] parsed.tasks)) [
              | inl (e, r) ↦ absurd (ground (arith, once, r))
              | inr (tasks, r) ↦
                  let (ids_same, (each, apart, fresh)) =
                    check_tasks-valid (task_ids parsed.tasks) [] parsed.tasks tasks r in
                  let l : IsLinked tasks = record {
                    unique =
                        subst IsDistinct (sym ids_same)
                          (set_size-IsDistinct (task_ids parsed.tasks) (ground (arith, once)));
                    named_once = λ t m. (each t m).0;
                    known = λ t m. subst (Subset t.dependencies) (sym ids_same) (each t m).1;
                  } in
                  let closed : close_plan lib parsed.summary tasks ≡ valid plan =
                    ground (arith, once, r) in
                  let (same, order) = close_plan-valid parsed.summary tasks plan l closed in
                  subst IsPlan same record {
                    linked = l;
                    order = order;
                    placed = λ t m. (each t m).2;
                    one_file_each = apart;
                  }
            ]
      ]
