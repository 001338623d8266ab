-- ===== src/Calls/Bounded.antt =====
-- What the calls of backend/agent/nodes.py may use, whatever the models answer.
use refactor_agent.Common.{
  ltb, leb, if◌then◌else◌, Bool-cases, Option-cases, ℤ, pos, negsuc, length, ℕ, ◌+◌, ◌≤◌, String,
  ◌≡◌, refl, inl, inr, none, List, [], ◌∷◌, arith,
}
use refactor_agent.Dict
use refactor_agent.Dict.{Dict}
use refactor_agent.Usage.{
  Setting, setting_of, clamp, bounded_int, RunBudgetLimits, RunUsage, get_run_budget_limits,
  get_run_usage, as_mapping, Response, nothing, boolean, int_value, convertible, unreadable, empty,
}
use refactor_agent.Budgets.{add_usage, budget_preflight_reason, excess_reason, settle}
use refactor_agent.Calls.{CallResult, tally, call_within, invoke_budgeted_agent, call_all}

clamp-le : (n : ℤ) (minimum maximum : ℕ) → clamp n minimum maximum ≤ maximum
clamp-le (pos n) minimum maximum = ground arith
clamp-le (negsuc n) minimum maximum = ground arith

bounded_int-le :
    (v : Setting) (default minimum maximum : ℕ)
    → default ≤ maximum
    → bounded_int v default minimum maximum ≤ maximum
unfolding bounded_int
bounded_int-le nothing default minimum maximum h = h
bounded_int-le (boolean b) default minimum maximum h = h
bounded_int-le (int_value n) default minimum maximum h = clamp-le n minimum maximum
bounded_int-le (convertible n) default minimum maximum h = clamp-le n minimum maximum
bounded_int-le unreadable default minimum maximum h = h
bounded_int-le empty default minimum maximum h = h

limits-le :
    (budget : Dict Setting)
    → ((get_run_budget_limits budget).max_agent_steps ≤ 100)
      × ((get_run_budget_limits budget).max_tool_calls ≤ 200)
unfolding get_run_budget_limits
limits-le budget = (
  bounded_int-le (setting_of "max_agent_steps" budget) 24 3 100 (omega arith),
  bounded_int-le (setting_of "max_tool_calls" budget) 32 1 200 (omega arith),
)

stored_steps :
    (u : RunUsage)
    → u.agent_steps ≤ 10000
    → (get_run_usage (as_mapping u)).agent_steps ≡ u.agent_steps
unfolding get_run_usage as_mapping Dict.get
stored_steps u h = ground arith

stored_calls :
    (u : RunUsage) → u.tool_calls ≤ 10000 → (get_run_usage (as_mapping u)).tool_calls ≡ u.tool_calls
unfolding get_run_usage as_mapping Dict.get
stored_calls u h = ground arith

module _ (decimal : ℕ → String) where
  preflight-room :
      (limits : RunBudgetLimits) (u : RunUsage)
      → budget_preflight_reason decimal limits u ≡ none
      → u.agent_steps + 1 ≤ limits.max_agent_steps
  unfolding budget_preflight_reason
  preflight-room limits u h = elim (Bool-cases (leb limits.max_agent_steps u.agent_steps)) [
    | inl e ↦ absurd (ground (arith, e))
    | inr e ↦ ground (arith, e)
  ]

  excess-none :
      (limits : RunBudgetLimits) (u : RunUsage) (r : Response)
      → excess_reason decimal limits u r ≡ none
      → u.tool_calls ≤ limits.max_tool_calls
  unfolding excess_reason
  excess-none limits u r h = elim (Bool-cases (ltb limits.max_tool_calls u.tool_calls)) [
    | inl e ↦ absurd (ground (arith, e))
    | inr e ↦ ground (arith, e)
  ]

  -- What a call asks and passes on, added to what was used, is within the limits; and a call without
  -- a reason leaves the sum as the usage.
  record Fits (limits : RunBudgetLimits) (current : RunUsage) (result : CallResult) : Type 0 where
    steps_fit : current.agent_steps + (if result.asked then 1 else 0) ≤ limits.max_agent_steps
    calls_fit : current.tool_calls + length result.response.tool_calls ≤ limits.max_tool_calls
    steps_kept :
        result.budget_reason ≡ none
        → result.run_usage.agent_steps ≡ current.agent_steps + (if result.asked then 1 else 0)
    calls_kept :
        result.budget_reason ≡ none
        → result.run_usage.tool_calls ≡ current.tool_calls + length result.response.tool_calls

  call_within-Fits :
      (limits : RunBudgetLimits) (current : RunUsage) (role : String) (answer : Response)
      → current.agent_steps ≤ limits.max_agent_steps
      → current.tool_calls ≤ limits.max_tool_calls
      → Fits limits current (call_within decimal limits current role answer)
  unfolding call_within
  call_within-Fits limits current role answer a b =
      elim (Option-cases (budget_preflight_reason decimal limits current)) [
        | inr (reason, e) ↦
            rw (e, call_within)
              record {
                steps_fit = ground arith;
                calls_fit = ground arith;
                steps_kept = λ h. absurd (ground arith);
                calls_kept = λ h. absurd (ground arith);
              }
        | inl e ↦
            let room = preflight-room limits current e in
            rw (e, call_within)
              (elim (Option-cases
                (excess_reason decimal limits (add_usage current answer) answer)) [
                  | inr (reason, x) ↦
                      rw (x, settle)
                        record {
                          steps_fit = room;
                          calls_fit = ground arith;
                          steps_kept = λ h. absurd (ground arith);
                          calls_kept = λ h. absurd (ground arith);
                        }
                  | inl x ↦
                      let within = excess-none limits (add_usage current answer) answer x in
                      rw (x, settle)
                        record {
                          steps_fit = room;
                          calls_fit = within;
                          steps_kept = λ h. refl;
                          calls_kept = λ h. refl;
                        }
                ])
      ]

  tally-Fits :
      (limits : RunBudgetLimits) (current : RunUsage) (result : CallResult) (more : ℕ × ℕ)
      → Fits limits current result
      → (result.budget_reason ≡ none
          → (result.run_usage.agent_steps + more.0 ≤ limits.max_agent_steps)
            × (result.run_usage.tool_calls + more.1 ≤ limits.max_tool_calls))
      → (current.agent_steps + (tally result more).0 ≤ limits.max_agent_steps)
        × (current.tool_calls + (tally result more).1 ≤ limits.max_tool_calls)
  unfolding tally
  tally-Fits limits current result more f later = elim (Option-cases result.budget_reason) [
    | inr (reason, e) ↦ rw (e, tally) (f.steps_fit, f.calls_fit)
    | inl e ↦
        let (steps, calls) = later e in
        let kept_steps = f.steps_kept e in
        let kept_calls = f.calls_kept e in rw (e, tally) (omega arith, omega arith)
  ]

  call_all-cons :
      (budget used : Dict Setting) (role : String) (answer : Response)
      (answers : List (String × Response))
      → call_all decimal budget used ((role, answer) ∷ answers)
        ≡ tally (invoke_budgeted_agent decimal budget used role answer) (
            call_all decimal budget
              (as_mapping (invoke_budgeted_agent decimal budget used role answer).run_usage)
              answers)
  unfolding call_all
  call_all-cons budget used role answer answers = refl

  -- However many answers the models would give, and whatever they ask for: from a usage within the
  -- limits, the questions to models and the tool calls that are passed on to the tools stay within
  -- what is left of the limits of the run.
  pub call_all-fits :
      (budget used : Dict Setting) (answers : List (String × Response))
      → (get_run_usage used).agent_steps ≤ (get_run_budget_limits budget).max_agent_steps
      → (get_run_usage used).tool_calls ≤ (get_run_budget_limits budget).max_tool_calls
      → ((get_run_usage used).agent_steps + (call_all decimal budget used answers).0
          ≤ (get_run_budget_limits budget).max_agent_steps)
        × ((get_run_usage used).tool_calls + (call_all decimal budget used answers).1
            ≤ (get_run_budget_limits budget).max_tool_calls)
  call_all-fits budget used [] a b = unfold call_all in (omega arith, omega arith)
  call_all-fits budget used ((role, answer) ∷ answers) a b =
      let limits = get_run_budget_limits budget in
      let result = invoke_budgeted_agent decimal budget used role answer in
      let f : Fits limits (get_run_usage used) result =
        unfold invoke_budgeted_agent in
        call_within-Fits limits (get_run_usage used) role answer a b in
      let more = call_all decimal budget (as_mapping result.run_usage) answers in
      let both = tally-Fits limits (get_run_usage used) result more f λ e.
        let kept_steps = f.steps_kept e in
        let kept_calls = f.calls_kept e in
        let steps : result.run_usage.agent_steps ≤ limits.max_agent_steps =
          rw kept_steps f.steps_fit in
        let calls : result.run_usage.tool_calls ≤ limits.max_tool_calls =
          rw kept_calls f.calls_fit in
        let (steps_bound, calls_bound) = limits-le budget in
        let same_steps = stored_steps result.run_usage (omega arith) in
        let same_calls = stored_calls result.run_usage (omega arith) in
        let ih =
          call_all-fits budget (as_mapping result.run_usage) answers (rw same_steps steps)
            (rw same_calls calls) in
        (omega arith, omega arith) in
      rw (call_all-cons budget used role answer answers) both
