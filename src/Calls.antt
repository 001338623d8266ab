-- ===== src/Calls.antt =====
-- backend/agent/nodes.py: how every role calls its model. `llm.invoke` is outside: its answer is an
-- argument. The tools and edges between two calls do not change the usage.
pub mod Bounded
use refactor_agent.Common.{
  if◌then◌else◌, length, ℕ, ◌+◌, String, Bool, true, false, Option, none, some, List, [], ◌∷◌, ◌++◌,
}
use refactor_agent.Messages.{join_text, Message, last?, str, human, ai}
use refactor_agent.Dict.{Dict}
use refactor_agent.Usage.{
  Setting, RunBudgetLimits, RunUsage, get_run_budget_limits, get_run_usage, as_mapping, Response,
  absent,
}
use refactor_agent.Budgets.{budget_preflight_reason, settle}

abbrev is_ai : Option Message → Bool
is_ai (some (ai content calls)) = true
is_ai _ = false

-- A model's turn must not be the last one that a model is given.
unfoldable ensure_valid_turn_sequence : List Message → String → List Message
ensure_valid_turn_sequence messages fallback_prompt =
    if is_ai (last? messages) then messages ++ human (str fallback_prompt) ∷ [] else messages

-- What a call leaves in the state, and whether the model was asked.
pub record CallResult : Type 0 where
  pub response : Response
  pub run_usage : RunUsage
  pub budget_reason : Option String
  pub asked : Bool

-- The answer that is made up where the budget is used up before.
unfoldable refusal : String → String → Response
refusal role reason = record {
  content = str (join_text ("【RUN_BUDGET_EXCEEDED】" ∷ role ∷ " 未执行：" ∷ reason ∷ "。" ∷ []));
  tool_calls = [];
  usage_metadata = absent;
  token_usage = absent;
  metadata_usage = absent;
  usage = absent;
}

-- The counts of a call, and of those behind it unless it is the last.
pub tally : CallResult → ℕ × ℕ → ℕ × ℕ
tally result (more_asked, more_passed_on) =
    let asked = if result.asked then 1 else 0 in
    let passed_on = length result.response.tool_calls in
    elim result.budget_reason [
      | some reason ↦ (asked, passed_on)
      | none ↦ (asked + more_asked, passed_on + more_passed_on)
    ]

module _ (decimal : ℕ → String) where
  -- `invoke_budgeted_agent`, from the limits and the usage so far.
  pub call_within : RunBudgetLimits → RunUsage → String → Response → CallResult
  unfolding budget_preflight_reason settle refusal
  call_within limits current role raw_response =
      elim (budget_preflight_reason decimal limits current) [
        | some reason ↦ record {
          response = refusal role reason;
          run_usage = current;
          budget_reason = some reason;
          asked = false;
        }
        | none ↦
            let (response, u, reason) = settle decimal limits current raw_response in
            record { response = response; run_usage = u; budget_reason = reason; asked = true }
      ]

  -- The arguments are the mappings of the configuration and of the state. The `budget_exceeded` of
  -- the state is whether there is a reason.
  pub invoke_budgeted_agent : Dict Setting → Dict Setting → String → Response → CallResult
  unfolding call_within get_run_budget_limits get_run_usage
  invoke_budgeted_agent budget used role raw_response =
      call_within (get_run_budget_limits budget) (get_run_usage used) role raw_response

  -- The calls of a run, whatever the roles and answers: a call that exceeds the budget is the last,
  -- since every edge then leads to an end. Counted are the questions to models, and the tool calls
  -- that are passed on.
  pub call_all : Dict Setting → Dict Setting → List (String × Response) → ℕ × ℕ
  unfolding invoke_budgeted_agent tally
  call_all budget used [] = (0, 0)
  call_all budget used ((role, answer) ∷ answers) =
      let result = invoke_budgeted_agent budget used role answer in
      tally result (call_all budget (as_mapping result.run_usage) answers)
