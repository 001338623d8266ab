-- ===== src/Routes.antt =====
-- backend/agent/edges.py: where the graph goes behind a node. `none` is IndexError, where there is
-- no message.
use refactor_agent.Common.{
  ltb, if◌then◌else◌, is_set, ℕ, String, Bool, true, false, not, Option, none, some, List, [], ◌∷◌,
}
use refactor_agent.Messages.{get_message_text, mentions, Message, content_of, last?, ai}
use refactor_agent.State.{PlanStatus, State, plan_completed, plan_failed}
use refactor_agent.Scheduler.{is_fallback}
use refactor_agent.Evidence.{EvidenceLibrary, review_evidence_errors}

abbrev pub max_developer_retries : ℕ
max_developer_retries = 3

abbrev pub max_review_protocol_errors : ℕ
max_review_protocol_errors = 2

-- The nodes that an edge names.
pub data Route : Type 0 where
  architect_tools developer_tools reviewer_tools schedule_task developer reviewer : Route
  complete_task developer_retry reviewer_protocol_retry : Route
  finalize_review_success finalize_review_failure finalize_budget_failure finalize_plan_failure :
      Route

-- `_has_tool_calls`
pub has_tool_calls : Message → Bool
has_tool_calls (ai content (call ∷ calls)) = true
has_tool_calls _ = false

-- `state.get("refactor_plan") is not None and state.get("plan_status") != "fallback"`
pub is_planned : State → Bool
is_planned s = elim s.refactor_plan [ none ↦ false | some plan ↦ not (is_fallback s.plan_status) ]

unfoldable pub route_architect : State → Option Route
unfolding has_tool_calls
route_architect s =
    if s.budget_exceeded then some finalize_budget_failure else elim (last? s.messages) [
      | none ↦ none
      | some m ↦ some (if has_tool_calls m then architect_tools else schedule_task)
    ]

unfoldable pub route_developer : State → Option Route
unfolding has_tool_calls is_planned
route_developer s =
    if s.budget_exceeded
    then some (if is_planned s then complete_task else finalize_budget_failure)
    else elim (last? s.messages) [
      | none ↦ none
      | some m ↦ some (
          if has_tool_calls m
          then developer_tools
          else if is_planned s
          then complete_task
          else reviewer)
    ]

-- `route_task_scheduler` with a plan, by the plan's status.
unfoldable pub route_planned : State → Option PlanStatus → Route
route_planned s (some plan_completed) = reviewer
route_planned s (some plan_failed) =
    if s.budget_exceeded then finalize_budget_failure else finalize_plan_failure
route_planned s _ = if is_set s.active_task_id then developer else finalize_plan_failure

unfoldable pub route_task_scheduler : State → Route
unfolding is_planned route_planned
route_task_scheduler s = if not (is_planned s) then developer else route_planned s s.plan_status

-- `route_reviewer` where the last message names neither marker, or success without evidence.
unfoldable pub retry_protocol : State → Route
retry_protocol s =
    if ltb s.review_protocol_errors max_review_protocol_errors
    then reviewer_protocol_retry
    else finalize_review_failure

-- `route_reviewer` where the last message claims success, by the gaps in the evidence.
unfoldable pub route_judged : State → List String → Route
unfolding retry_protocol
route_judged s [] = finalize_review_success
route_judged s (e ∷ es) = retry_protocol s

module _ (lib : EvidenceLibrary) where
  -- `route_reviewer`, by the text of the last message.
  unfoldable pub route_verdict : State → String → Route
  unfolding route_judged
  route_verdict s content =
      if mentions content "【REFACTOR_FAIL】"
      then if ltb s.retry_count max_developer_retries
        then developer_retry
        else finalize_review_failure
      else if mentions content "【REFACTOR_SUCCESS】"
      then route_judged s (review_evidence_errors lib s)
      else retry_protocol s

  unfoldable pub route_reviewer : State → Option Route
  unfolding route_verdict has_tool_calls
  route_reviewer s =
      if s.budget_exceeded then some finalize_budget_failure else elim (last? s.messages) [
        | none ↦ none
        | some m ↦ some (
            if has_tool_calls m
            then reviewer_tools
            else route_verdict s (get_message_text (content_of m)))
      ]
