-- ===== src/Usage.antt =====
-- backend/agent/budgets.py: the limits of a run, its usage, and the tokens that an answer reports. An
-- exception other than TypeError and ValueError in `int` is not modelled.
use refactor_agent.Common.{
  if◌then◌else◌, ℤ, pos, negsuc, any_of, ℕ, zero, ◌+◌, min, max, String, Bool, true, false, none,
  some, List, [], ◌∷◌,
}
use refactor_agent.Dict
use refactor_agent.Dict.{Dict}
use refactor_agent.Messages.{Content, ToolCall}

-- A value in a mapping, as far as the budget tells values apart.
pub data Setting : Type 0 where
  nothing : Setting
  boolean : Bool → Setting
  int_value : ℤ → Setting
  -- a true value that `int` reads, a true one that it does not, and another false one
  convertible : ℤ → Setting
  unreadable empty : Setting

-- `mapping.get(key)`
abbrev pub setting_of : String → Dict Setting → Setting
setting_of key d = elim (Dict.get key d) [ none ↦ nothing | some v ↦ v ]

-- `min(max(n, minimum), maximum)`
abbrev pub clamp : ℤ → ℕ → ℕ → ℕ
clamp (pos n) minimum maximum = min (max n minimum) maximum
clamp (negsuc n) minimum maximum = min minimum maximum

unfoldable pub bounded_int : Setting → ℕ → ℕ → ℕ → ℕ
bounded_int (int_value n) default minimum maximum = clamp n minimum maximum
bounded_int (convertible n) default minimum maximum = clamp n minimum maximum
bounded_int _ default minimum maximum = default

pub record RunBudgetLimits : Type 0 where
  pub max_agent_steps : ℕ
  pub max_tool_calls : ℕ
  pub max_total_tokens : ℕ
  pub model_timeout_seconds : ℕ

pub record RunUsage : Type 0 where
  pub agent_steps : ℕ
  pub tool_calls : ℕ
  pub input_tokens : ℕ
  pub output_tokens : ℕ
  pub total_tokens : ℕ
  pub unmetered_steps : ℕ

abbrev pub empty_run_usage : RunUsage
empty_run_usage = record {
  agent_steps = 0;
  tool_calls = 0;
  input_tokens = 0;
  output_tokens = 0;
  total_tokens = 0;
  unmetered_steps = 0;
}

-- From the mapping `run_budget` of the configuration, empty where there is none.
unfoldable pub get_run_budget_limits : Dict Setting → RunBudgetLimits
unfolding bounded_int
get_run_budget_limits budget = record {
  max_agent_steps = bounded_int (setting_of "max_agent_steps" budget) 24 3 100;
  max_tool_calls = bounded_int (setting_of "max_tool_calls" budget) 32 1 200;
  max_total_tokens = bounded_int (setting_of "max_total_tokens" budget) 120000 1000 2000000;
  model_timeout_seconds = bounded_int (setting_of "model_timeout_seconds" budget) 60 5 300;
}

-- From the mapping `run_usage` of the state, empty where there is none.
unfoldable pub get_run_usage : Dict Setting → RunUsage
unfolding bounded_int
get_run_usage usage = record {
  agent_steps = bounded_int (setting_of "agent_steps" usage) 0 0 10000;
  tool_calls = bounded_int (setting_of "tool_calls" usage) 0 0 10000;
  input_tokens = bounded_int (setting_of "input_tokens" usage) 0 0 100000000;
  output_tokens = bounded_int (setting_of "output_tokens" usage) 0 0 100000000;
  total_tokens = bounded_int (setting_of "total_tokens" usage) 0 0 100000000;
  unmetered_steps = bounded_int (setting_of "unmetered_steps" usage) 0 0 10000;
}

-- The mapping that a usage is in the state.
unfoldable pub as_mapping : RunUsage → Dict Setting
as_mapping u =
    ("agent_steps", int_value (pos u.agent_steps))
    ∷ ("tool_calls", int_value (pos u.tool_calls))
    ∷ ("input_tokens", int_value (pos u.input_tokens))
    ∷ ("output_tokens", int_value (pos u.output_tokens))
    ∷ ("total_tokens", int_value (pos u.total_tokens))
    ∷ ("unmetered_steps", int_value (pos u.unmetered_steps))
    ∷ []

unfoldable nonnegative_token : Setting → ℕ
nonnegative_token (int_value (pos n)) = n
nonnegative_token (convertible (pos n)) = n
nonnegative_token _ = 0

-- What the provider reports, under one of the metadata's names.
pub data Report : Type 0 where
  absent other_report : Report
  mapping : Dict Setting → Report

-- What the budget reads of an answer of the model.
pub record Response : Type 0 where
  pub content : Content
  pub tool_calls : List ToolCall
  pub usage_metadata : Report
  pub token_usage : Report
  pub metadata_usage : Report
  pub usage : Report

-- `a or b`, of reports and of values.
unfoldable or_report : Report → Report → Report
or_report absent b = b
or_report (mapping []) b = b
or_report a b = a

unfoldable or_setting : Setting → Setting → Setting
or_setting nothing b = b
or_setting (boolean false) b = b
or_setting (int_value (pos zero)) b = b
or_setting empty b = b
or_setting a b = a

-- `keys.intersection(usage)` is not empty.
unfoldable has_key : List String → Dict Setting → Bool
has_key keys d = any_of (λ k. elim (Dict.get k d) [ none ↦ false | some v ↦ true ]) keys

-- Input, output and total tokens, and whether the answer was metered.
pub record Tokens : Type 0 where
  pub input_tokens : ℕ
  pub output_tokens : ℕ
  pub total_tokens : ℕ
  pub metered : Bool

abbrev unmetered : Tokens
unmetered = record { input_tokens = 0; output_tokens = 0; total_tokens = 0; metered = false }

unfoldable metered_tokens : Setting → Setting → Setting → Tokens
unfolding nonnegative_token
metered_tokens input output total = record {
  input_tokens = nonnegative_token input;
  output_tokens = nonnegative_token output;
  total_tokens = max (nonnegative_token total) (nonnegative_token input + nonnegative_token output);
  metered = true;
}

unfoldable fallback_tokens : Report → Tokens
unfolding has_key metered_tokens or_setting
fallback_tokens (mapping d) =
    if has_key
      ("input_tokens" ∷ "prompt_tokens" ∷ "output_tokens" ∷ "completion_tokens" ∷ "total_tokens"
        ∷ [])
      d
    then metered_tokens (or_setting (setting_of "input_tokens" d) (setting_of "prompt_tokens" d))
        (or_setting (setting_of "output_tokens" d) (setting_of "completion_tokens" d))
        (setting_of "total_tokens" d)
    else unmetered
fallback_tokens _ = unmetered

-- The report of `response_metadata`.
unfoldable metadata_tokens : Response → Tokens
unfolding fallback_tokens or_report
metadata_tokens r = fallback_tokens (or_report r.token_usage (or_report r.metadata_usage r.usage))

unfoldable pub extract_token_usage : Response → Tokens
unfolding metadata_tokens has_key metered_tokens
extract_token_usage r = elim r.usage_metadata [
  | mapping d ↦
      if has_key ("input_tokens" ∷ "output_tokens" ∷ "total_tokens" ∷ []) d
      then metered_tokens (setting_of "input_tokens" d) (setting_of "output_tokens" d)
          (setting_of "total_tokens" d)
      else metadata_tokens r
  | _ ↦ metadata_tokens r
]
