-- ===== src/Reviews.antt =====
-- backend/agent/scheduler.py: `parse_reviewer_failure_result` and `reopen_tasks_after_review`. The
-- JSON decoder (`raw_decode`, where it succeeds, its value) and `str.strip` are parameters.
use Prim.Native.Char.{code}
use refactor_agent.Common.{
  eqb, if◌then◌else◌, length, select, all_of, contains, set_size, String, Bool, false, not, Option,
  none, some, List, [], ◌∷◌, ◌==◌,
}
use refactor_agent.Dict
use refactor_agent.Dict.{Dict}
use refactor_agent.Messages.{get_message_text, content_of, last?}
use refactor_agent.Plans.{RefactorTask, RefactorPlan, task_ids}
use refactor_agent.State.{TaskTransition, Execution, State, pending, failed, plan_running}
use refactor_agent.Downstream.{downstream_task_ids}
use refactor_agent.Scheduler.{mark_all, is_fallback}

mutual
  pub data Json : Type 0 where
    null : Json
    bool : Bool → Json
    number : Json
    string : String → Json
    array : Items → Json
    object : Fields → Json

  pub data Items : Type 0 where
    nil : Items
    cons : Json → Items → Items

  pub data Fields : Type 0 where
    end : Fields
    field : String → Json → Fields → Fields

-- `value.get(name)`: of a repeated name the decoder keeps the last.
unfoldable pub json_get : String → Fields → Option Json
json_get name end = none
json_get name (field k v rest) = elim (json_get name rest) [
  | some later ↦ some later
  | none ↦ if k == name then some v else none
]

-- The elements, if all are texts and not empty.
unfoldable pub text_items : Items → Option (List String)
text_items nil = some []
text_items (cons (string s) rest) =
    let others = text_items rest in
    if s == "" then none else elim others [ none ↦ none | some ss ↦ some (s ∷ ss) ]
text_items (cons _ rest) = none

-- `(failed_task_ids, summary)`, or the text of the protocol error.
pub data Verdict : Type 0 where
  rejected : List String → String → Verdict
  protocol_error : String → Verdict

module _ (raw_decode : String → Option Json) (strip : String → String) where
  -- The objects that decode from an opening brace, at any place of the text.
  unfoldable pub object_candidates : String → List Fields
  object_candidates String.[] = []
  object_candidates (String.◌∷◌ c s) =
      let rest = object_candidates s in
      if eqb (code c) b'{'
      then elim (raw_decode (String.◌∷◌ c s)) [ some (object o) ↦ o ∷ rest | _ ↦ rest ]
      else rest

  unfoldable pub failed_status : Fields → Bool
  failed_status o = elim (json_get "status" o) [ some (string s) ↦ s == "failed" | _ ↦ false ]

  unfoldable pub failed_ids : Fields → Option (List String)
  unfolding text_items
  failed_ids o = elim (json_get "failed_task_ids" o) [ some (array xs) ↦ text_items xs | _ ↦ none ]

  unfoldable pub summary_of : Fields → Option String
  summary_of o = elim (json_get "summary" o) [
    | some (string s) ↦ if strip s == "" then none else some (strip s)
    | _ ↦ none
  ]

  unfoldable pub check_ids : List String → String → Verdict
  check_ids [] summary = protocol_error "Reviewer 结构化失败结果不符合协议"
  check_ids (id ∷ ids) summary =
      if eqb (set_size (id ∷ ids)) (length (id ∷ ids))
      then rejected (id ∷ ids) summary
      else protocol_error "Reviewer 结构化失败结果不符合协议"

  unfoldable pub check_object : Fields → Verdict
  unfolding failed_status failed_ids summary_of check_ids
  check_object o =
      if failed_status o
      then elim (failed_ids o) [
        | none ↦ protocol_error "Reviewer 结构化失败结果不符合协议"
        | some ids ↦ elim (summary_of o) [
          | none ↦ protocol_error "Reviewer 结构化失败结果不符合协议"
          | some summary ↦ check_ids ids summary
        ]
      ]
      else protocol_error "Reviewer 结构化失败结果不符合协议"

  unfoldable pub only_object : List Fields → Verdict
  unfolding check_object
  only_object (o ∷ []) = check_object o
  only_object _ = protocol_error "Reviewer 必须返回一个且仅一个结构化失败 JSON 对象"

  unfoldable pub parse_reviewer_failure_result : String → Verdict
  unfolding only_object
  parse_reviewer_failure_result content = only_object (object_candidates content)

-- The ids that a verdict names, and the summary. An id that the plan does not have is a protocol
-- error, and a protocol error names every task.
unfoldable pub named_ids : List RefactorTask → Verdict → List String × String
named_ids tasks (protocol_error e) = (task_ids tasks, e)
named_ids tasks (rejected ids summary) =
    if all_of (λ id. contains id (task_ids tasks)) ids
    then (ids, summary)
    else (task_ids tasks, "Reviewer 返回了当前计划之外的任务 ID")

-- `for id in ids: d.pop(id, None)`
unfoldable pub pop_all {ℓ} : {V : Type ℓ} → List String → Dict V → Dict V
pop_all [] d = d
pop_all (id ∷ ids) d = pop_all ids (Dict.pop id d)

unfoldable pub review_transition : List String → String → List String → Option TaskTransition
review_transition [] summary reopened = none
review_transition (id ∷ ids) summary reopened = some (record {
  task_id = id;
  status = failed;
  reason = some (if summary == "" then "Reviewer 打回任务" else summary);
  retry_count = none;
  blocked_task_ids = some (select (λ k. not (contains k (id ∷ ids))) reopened);
})

-- The retry counts stay as they are.
unfoldable pub reopen : List RefactorTask → List String → String → Execution → Execution
unfolding pop_all review_transition
reopen tasks ids summary ex =
    let reopened = downstream_task_ids tasks ids in
    record ex {
      task_statuses = mark_all pending reopened ex.task_statuses;
      active_task_id = none;
      completed_task_ids = select (λ id. not (contains id reopened)) ex.completed_task_ids;
      task_failures = pop_all reopened ex.task_failures;
      task_results = pop_all reopened ex.task_results;
      plan_status = some plan_running;
      active_task_write_succeeded = false;
      active_task_failure_reason = none;
      task_transition = review_transition ids summary reopened;
    }

module _ (raw_decode : String → Option Json) (strip : String → String) where
  unfoldable pub reopen_by : RefactorPlan → Execution → String → Execution
  unfolding named_ids
  reopen_by plan ex content =
      let (ids, summary) =
        named_ids plan.tasks (parse_reviewer_failure_result raw_decode strip content) in
      reopen plan.tasks ids summary ex

  -- `none` is IndexError, where there is no message.
  unfoldable pub reopen_tasks_after_review : State → Option Execution
  unfolding reopen_by
  reopen_tasks_after_review s = elim s.refactor_plan [
    | none ↦ some s.execution
    | some plan ↦ if is_fallback s.plan_status then some s.execution else elim (last? s.messages) [
      | none ↦ none
      | some m ↦ some (reopen_by plan s.execution (get_message_text (content_of m)))
    ]
  ]
