-- ===== src/Examples/Plan.antt =====
-- A plan of two tasks, and a state that starts with it (backend/agent/plans.py,
-- backend/agent/scheduler.py).
use refactor_agent.Common.{
  contains, IsDistinct, Subset, String, ◌≡◌, refl, sym, subst, ◌↔◌, inl, inr, Bool, true, false,
  none, some, some-injective, List, [], ◌∷◌, arith, eq_iff,
}
use refactor_agent.Dict
use refactor_agent.Plans.{RefactorTask, RefactorPlan, task_ids, Among, assert_acyclic}
use refactor_agent.Plans.Ordering.{IsOrdered}
use refactor_agent.Plans.Acyclic.{IsLinked}
use refactor_agent.Plans.Verdict.{assert_acyclic-exact}
use refactor_agent.Downstream.{downstream_task_ids}
use refactor_agent.Downstream.Exact.{Downstream, downstream_task_ids_lem}
use refactor_agent.State.{State}
use refactor_agent.Scheduler.{initialize_plan_execution}

abbrev pub task_a : RefactorTask
task_a = record {
  id = "a";
  title = "A";
  description = "split";
  file_path = "CodeSmells/a.py";
  dependencies = [];
}

abbrev pub task_b : RefactorTask
task_b = record {
  id = "b";
  title = "B";
  description = "use";
  file_path = "CodeSmells/b.py";
  dependencies = "a" ∷ [];
}

abbrev pub two_tasks : List RefactorTask
two_tasks = task_b ∷ task_a ∷ []

abbrev pub plan : RefactorPlan
plan = record { summary = "two"; tasks = two_tasks }

abbrev pub first_state : State
first_state = record {
  messages = [];
  retry_count = 0;
  review_protocol_errors = 0;
  review_status = none;
  change_records = [];
  test_run_records = [];
  review_evidence = none;
  refactor_plan = some plan;
  plan_error = none;
  execution = initialize_plan_execution (some plan) none;
  budget_exceeded = false;
  budget_reason = none;
  workspace_id = none;
}

named_once : (t : RefactorTask) → Among t two_tasks → IsDistinct t.dependencies
unfolding contains
named_once t (inl e) = subst (λ u. IsDistinct u.dependencies) (sym e) (refl, tt)
named_once t (inr (inl e)) = subst (λ u. IsDistinct u.dependencies) (sym e) tt
named_once t (inr (inr m)) = absurd m

known : (t : RefactorTask) → Among t two_tasks → Subset t.dependencies (task_ids two_tasks)
unfolding contains task_ids
known t (inl e) =
    subst (λ u. Subset u.dependencies (task_ids two_tasks)) (sym e)
      λ k h. ground (arith, h, eq_iff "a" k)
known t (inr (inl e)) =
    subst (λ u. Subset u.dependencies (task_ids two_tasks)) (sym e) λ k h. absurd (ground arith)
known t (inr (inr m)) = absurd m

pub two_tasks-IsLinked : IsLinked two_tasks
two_tasks-IsLinked = record {
  unique = unfold contains task_ids in (refl, (refl, tt));
  named_once = named_once;
  known = known;
}

pub two_tasks_order :
    (order : List String) × IsOrdered two_tasks [] order × Subset (task_ids two_tasks) order
unfolding assert_acyclic Dict.get Dict.put
two_tasks_order =
    let (verdict, run, exact) = assert_acyclic-exact two_tasks two_tasks-IsLinked in
    exact.0 (sym (some-injective true verdict run))

assert_acyclic-exact_example :
    (verdict : Bool) × (assert_acyclic two_tasks ≡ some verdict)
    × ((verdict ≡ true) ↔ (
        (order : List String) × IsOrdered two_tasks [] order × Subset (task_ids two_tasks) order))
assert_acyclic-exact_example = assert_acyclic-exact two_tasks two_tasks-IsLinked

downstream_task_ids_lem_example :
    (contains "b" (downstream_task_ids two_tasks ("a" ∷ [])) ≡ true)
    ↔ ((contains "b" (task_ids two_tasks) ≡ true) × Downstream two_tasks ("a" ∷ []) "b")
downstream_task_ids_lem_example = downstream_task_ids_lem two_tasks ("a" ∷ []) "b"
