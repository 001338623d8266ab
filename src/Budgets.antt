-- ===== src/Budgets.antt =====
-- backend/agent/budgets.py: when a run has used up its budget. The decimal digits of a number are a
-- parameter.
use refactor_agent.Common.{
  ltb, leb, if◌then◌else◌, length, ℕ, ◌+◌, String, Bool, true, false, not, ◌&&◌, Option, none, some,
  List, [], ◌∷◌,
}
use refactor_agent.Messages.{join_text, ToolCall, str}
use refactor_agent.Usage.{
  Setting, RunBudgetLimits, RunUsage, get_run_budget_limits, get_run_usage, Response,
  extract_token_usage,
}
use refactor_agent.Dict.{Dict}

-- The usage with one more answer.
pub add_usage : RunUsage → Response → RunUsage
unfolding extract_token_usage
add_usage current r =
    let tokens = extract_token_usage r in
    record {
      agent_steps = current.agent_steps + 1;
      tool_calls = current.tool_calls + length r.tool_calls;
      input_tokens = current.input_tokens + tokens.input_tokens;
      output_tokens = current.output_tokens + tokens.output_tokens;
      total_tokens = current.total_tokens + tokens.total_tokens;
      unmetered_steps = current.unmetered_steps + (if tokens.metered then 0 else 1);
    }

abbrev pub is_none : List ToolCall → Bool
is_none [] = true
is_none (c ∷ cs) = false

module _ (decimal : ℕ → String) where
  unfoldable pub budget_preflight_reason : RunBudgetLimits → RunUsage → Option String
  budget_preflight_reason limits u =
      if leb limits.max_agent_steps u.agent_steps
      then some (
          join_text
            ("Agent 步数已达到上限 " ∷ decimal limits.max_agent_steps ∷ "，为避免工作流循环已停止下一次模型调用" ∷ []))
      else if leb limits.max_total_tokens u.total_tokens
      then some (join_text ("累计 Token 已达到上限 " ∷ decimal limits.max_total_tokens ∷ []))
      else none

  -- The reason for which an answer breaks the budget.
  unfoldable pub excess_reason : RunBudgetLimits → RunUsage → Response → Option String
  excess_reason limits u r =
      if ltb limits.max_tool_calls u.tool_calls
      then some (
          join_text (
            "本次响应会使工具调用数达到 "
            ∷ decimal u.tool_calls
            ∷ "，超过上限 "
            ∷ decimal limits.max_tool_calls
            ∷ []))
      else if ltb limits.max_total_tokens u.total_tokens
      then some (
          join_text (
            "累计 Token 达到 "
            ∷ decimal u.total_tokens
            ∷ "，超过上限 "
            ∷ decimal limits.max_total_tokens
            ∷ []))
      else if leb limits.max_agent_steps u.agent_steps && not (is_none r.tool_calls)
      then some (
          join_text
            ("Agent 步数已达到上限 " ∷ decimal limits.max_agent_steps ∷ "，当前工具意图需要额外模型回合才能闭环" ∷ []))
      else none

  -- The answer that stands for one that breaks the budget.
  unfoldable cut_response : String → Response → Response
  cut_response reason r = record {
    content = str (
        join_text (
          "【RUN_BUDGET_EXCEEDED】"
          ∷ reason
          ∷ "。"
          ∷ (if is_none r.tool_calls then "本次响应未进入后续工作流。" else "未执行本次工具调用。")
          ∷ []));
    tool_calls = [];
    usage_metadata = r.usage_metadata;
    token_usage = r.token_usage;
    metadata_usage = r.metadata_usage;
    usage = r.usage;
  }

  -- `account_agent_response`, from the limits and the usage so far: the answer to go on with, the
  -- usage, and the reason why the budget is exceeded.
  unfoldable pub settle :
      RunBudgetLimits → RunUsage → Response → Response × RunUsage × Option String
  unfolding add_usage excess_reason cut_response
  settle limits current r = elim (excess_reason limits (add_usage current r) r) [
    | none ↦ (r, add_usage current r, none)
    | some reason ↦ (cut_response reason r, add_usage current r, some reason)
  ]

  -- The arguments are the mappings of the configuration and of the state.
  unfoldable account_agent_response :
      Dict Setting → Dict Setting → Response → Response × RunUsage × Option String
  unfolding get_run_usage get_run_budget_limits settle
  account_agent_response budget used r =
      settle (get_run_budget_limits budget) (get_run_usage used) r
