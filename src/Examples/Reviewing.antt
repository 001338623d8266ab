-- ===== src/Examples/Reviewing.antt =====
-- Plans that are read, paths, budgets and reviews (backend/agent/plans.py, path_policy.py, budgets.py,
-- state.py, edges.py and nodes.py).
use refactor_agent.Common.{
  if◌then◌else◌, pos, select, any_of, contains, distinct, set_size, ℕ, zero, suc, ◌+◌, ◌≤◌, ◌<◌,
  String, ◌≡◌, refl, ◌↔◌, inl, inr, true, false, none, some, List, [], ◌∷◌, ◌++◌, arith, ◌==◌,
}
use refactor_agent.Dict
use refactor_agent.Paths.{
  PathLibrary, requested, is_blank, is_protected_path, canonical_refactor_path, accepted,
}
use refactor_agent.Paths.Boundary.{canonical_refactor_path-inside}
use refactor_agent.Validation.{PlanLibrary, normalize_plan}
use refactor_agent.Validation.Soundness.{IsPlan, normalize_plan-IsPlan}
use refactor_agent.Dict.{Dict}
use refactor_agent.Messages.{join_with, get_message_text, mentions, last?, str, ai}
use refactor_agent.State.{ChangeRecord, TestRunRecord, State, review_success}
use refactor_agent.Usage.{get_run_budget_limits, get_run_usage, Response, absent}
use refactor_agent.Calls.{call_all}
use refactor_agent.Calls.Bounded.{call_all-fits}
use refactor_agent.Evidence.{EvidenceLibrary, review_evidence_errors}
use refactor_agent.Evidence.Proof.{IsProven, review_evidence_errors-exact}
use refactor_agent.Plans.{task_ids}
use refactor_agent.Routes.{route_reviewer}
use refactor_agent.Verdicts.{
  reviewer_protocol_retry_node, evidence_of, finalize_review_success_node,
}
use refactor_agent.Verdicts.Endings.{IsSuccess, finalize_review_success-proven}
use refactor_agent.Verdicts.Retries.{chances_left, SentBack-fewer, to_reviewer}
use refactor_agent.Examples.Plan.{plan, first_state}

abbrev decimal : ℕ → String
decimal zero = "0"
decimal (suc n) = "many"

abbrev asks : Response
asks = record {
  content = str "write";
  tool_calls = record { tool = "write_code_file" } ∷ [];
  usage_metadata = absent;
  token_usage = absent;
  metadata_usage = absent;
  usage = absent;
}

call_all-fits_example :
    ((get_run_usage []).agent_steps + (call_all decimal [] [] (("Developer", asks) ∷ [])).0
      ≤ (get_run_budget_limits []).max_agent_steps)
    × ((get_run_usage []).tool_calls + (call_all decimal [] [] (("Developer", asks) ∷ [])).1
        ≤ (get_run_budget_limits []).max_tool_calls)
unfolding get_run_usage get_run_budget_limits Dict.get
call_all-fits_example =
    call_all-fits decimal [] [] (("Developer", asks) ∷ []) (omega arith) (omega arith)

abbrev pub evidence_library : EvidenceLibrary
evidence_library = record {
  dumps = λ entries. "[]";
  sha256 = λ s. s;
  decimal = λ n. "1";
  snapshot_digest = λ id. inl "w1";
  workspace_changed_paths = λ id. some ("CodeSmells/a.py" ∷ []);
}

abbrev change : ChangeRecord
change = record {
  file_path = "CodeSmells/a.py";
  before_sha256 = "1";
  after_sha256 = "2";
  added_lines = 1;
  removed_lines = 0;
  unified_diff = "+x";
  diff_truncated = false;
}

abbrev pub passing : TestRunRecord
passing = record {
  suite = "all";
  success = true;
  exit_code = pos 0;
  change_set_digest = "[]";
  workspace_snapshot_digest = "w1";
  workspace_stable = true;
  behavior_contract_included = true;
  success_marker_present = true;
  output_excerpt = "ok";
}

abbrev pub reviewed : State
reviewed = record first_state {
  messages = ai (str "【REFACTOR_SUCCESS】") [] ∷ [];
  change_records = change ∷ [];
  test_run_records = passing ∷ [];
  workspace_id = some "w";
}

review_evidence_errors-exact_example :
    (review_evidence_errors evidence_library reviewed ≡ []) ↔ IsProven evidence_library reviewed
review_evidence_errors-exact_example = review_evidence_errors-exact evidence_library reviewed

abbrev ended : State
ended = record reviewed {
  review_status = some review_success;
  review_evidence = some (evidence_of evidence_library reviewed passing ("CodeSmells/a.py" ∷ []));
}

finalize_review_success-proven_example : IsSuccess evidence_library reviewed ended
unfolding finalize_review_success_node review_evidence_errors last? mentions get_message_text
finalize_review_success-proven_example =
    finalize_review_success-proven evidence_library reviewed ended refl refl

abbrev silent : State
silent = record first_state { messages = ai (str "fine") [] ∷ [] }

SentBack-fewer_example :
    chances_left (reviewer_protocol_retry_node evidence_library silent) < chances_left silent
unfolding route_reviewer last? mentions get_message_text
SentBack-fewer_example =
    SentBack-fewer evidence_library (λ s. none) (λ s. s) decimal (to_reviewer silent refl)

abbrev plain_paths : PathLibrary
plain_paths = record {
  resolve = λ s.
      if s == "CodeSmells/a.py"
      then "repo" ∷ "CodeSmells" ∷ "a.py" ∷ []
      else "repo" ∷ "CodeSmells" ∷ "b.py" ∷ [];
  is_absolute = λ s. false;
  strip = λ s. s;
  casefold = λ s. s;
  project_root = "repo" ∷ [];
  refactor_root = "repo" ∷ "CodeSmells" ∷ [];
}

canonical_refactor_path-inside_example :
    ((below : List String) × (plain_paths.resolve (requested plain_paths "CodeSmells/a.py")
        ≡ plain_paths.refactor_root ++ below))
    × ((parts : List String) × (plain_paths.resolve (requested plain_paths "CodeSmells/a.py")
          ≡ plain_paths.project_root ++ parts)
        × ("CodeSmells/a.py" ≡ join_with "/" parts))
    × (is_protected_path plain_paths "CodeSmells/a.py" ≡ accepted false)
    × (plain_paths.is_absolute (requested plain_paths "CodeSmells/a.py") ≡ false)
    × (is_blank plain_paths "CodeSmells/a.py" ≡ false)
unfolding canonical_refactor_path any_of
canonical_refactor_path-inside_example =
    canonical_refactor_path-inside plain_paths "CodeSmells/a.py" "CodeSmells/a.py" refl

abbrev plain_library : PlanLibrary
plain_library = record {
  paths = plain_paths;
  suffix = λ s. ".py";
  plan_blocks = λ s. [];
  loads = λ s. inr "no JSON";
  model_validate = λ f v. inr "no plan";
}

normalize_plan-IsPlan_example : IsPlan plain_library plan
unfolding normalize_plan set_size distinct contains canonical_refactor_path any_of task_ids Dict.get
    Dict.put select
normalize_plan-IsPlan_example = normalize_plan-IsPlan plain_library plan plan refl
