-- ===== src/Verdicts.antt =====
-- backend/agent/nodes.py: the nodes behind the Reviewer, which ask again or end the run. `none` is
-- an exception: IndexError, where there is no message, or WorkspaceError of the changed paths. What the workspace gives is a parameter (Evidence).
pub mod Endings
pub mod Retries
use refactor_agent.Common.{
  if◌then◌else◌, ℕ, ◌+◌, String, Option, none, some, List, [], ◌∷◌, ◌++◌, ◌==◌,
}
use refactor_agent.Messages.{
  join_text, join_with, get_message_text, mentions, content_of, last?, str, human, ai,
}
use refactor_agent.State.{
  TaskFailure, TestRunRecord, ReviewEvidence, State, plan_failed, review_success, review_failed,
}
use refactor_agent.Dict.{Dict}
use refactor_agent.Evidence.{EvidenceLibrary, compute_change_set_digest, review_evidence_errors}
use refactor_agent.Reviews.{Json, reopen_tasks_after_review}

-- `result["plan_status"] = "failed"`, if there is a plan.
unfoldable fail_plan : State → State
fail_plan s = elim s.refactor_plan [
  | none ↦ s
  | some plan ↦ record s { execution = record s.execution { plan_status = some plan_failed } }
]

-- The last message of the run, and its status.
unfoldable pub end_failed : String → State → State
end_failed text s = record s {
  messages = s.messages ++ ai (str text) [] ∷ [];
  review_status = some review_failed;
}

-- `next(reversed(failures.items()))`
unfoldable failure_text : Dict TaskFailure → String
failure_text failures = elim (last? failures) [
  | none ↦ "动态任务计划无法继续调度"
  | some (task_id, failure) ↦ join_text ("任务 " ∷ task_id ∷ " 失败：" ∷ failure.reason ∷ [])
]

unfoldable finalize_plan_failure_node : State → State
unfolding end_failed failure_text
finalize_plan_failure_node s =
    let ended = end_failed (join_text ("【REFACTOR_FAIL】" ∷ failure_text s.task_failures ∷ [])) s in
    record ended { execution = record s.execution { plan_status = some plan_failed } }

-- `state.get("budget_reason") or "运行预算已耗尽"`
unfoldable budget_text : Option String → String
budget_text none = "运行预算已耗尽"
budget_text (some reason) = if reason == "" then "运行预算已耗尽" else reason

unfoldable finalize_budget_failure_node : State → State
unfolding fail_plan end_failed budget_text
finalize_budget_failure_node s =
    fail_plan
      (end_failed (join_text ("【REFACTOR_FAIL】运行预算终止：" ∷ budget_text s.budget_reason ∷ [])) s)

module _ (lib : EvidenceLibrary) where
  -- The hint on what is missing.
  unfoldable evidence_hint : List String → String
  evidence_hint [] = ""
  evidence_hint (e ∷ es) = join_text (" 当前证据缺口：" ∷ join_with "；" (e ∷ es) ∷ "。" ∷ [])

  pub reviewer_protocol_retry_node : State → State
  unfolding evidence_hint
  reviewer_protocol_retry_node s = record s {
    messages =
        s.messages
        ++ human (
            str (
              join_text (
                "[SYSTEM] 你的上一条审查结论不满足工作流成功协议。"
                ∷ evidence_hint (review_evidence_errors lib s)
                ∷ "请根据结构化证据重新审查；需要时调用 run_unit_tests，"
                ∷ "并且最终结论必须包含 【REFACTOR_SUCCESS】 或 【REFACTOR_FAIL】。"
                ∷ [])))
          ∷ [];
    review_protocol_errors = s.review_protocol_errors + 1;
  }

  -- The reason why a success is turned down.
  pub refusal_reason : List String → String
  refusal_reason errors =
      let reasons = join_with "；" errors in if reasons == "" then "Reviewer 缺少成功协议标记" else reasons

  unfoldable pub refuse_success : String → State → State
  unfolding end_failed
  refuse_success text s = record (end_failed text s) { review_evidence = none }

  -- The evidence of a success: the changes are the workspace's.
  pub evidence_of : State → TestRunRecord → List String → ReviewEvidence
  evidence_of s latest paths = record {
    changed_files = paths;
    change_set_digest = compute_change_set_digest lib s.change_records;
    workspace_snapshot_digest = latest.workspace_snapshot_digest;
    test_suite = latest.suite;
    test_success = latest.success;
    test_exit_code = latest.exit_code;
  }

  -- The result of a success. `workspace_changed_paths` may raise.
  pub close_with : State → TestRunRecord → Option (List String) → Option State
  unfolding evidence_of
  close_with s latest none = none
  close_with s latest (some paths) = some (record s {
    review_status = some review_success;
    review_evidence = some (evidence_of s latest paths);
  })

  -- The end of `finalize_review_success_node`, by the workspace of the run.
  pub close_in : State → TestRunRecord → Option String → Option State
  unfolding close_with refuse_success
  close_in s latest none = some (refuse_success "【REFACTOR_FAIL】运行缺少隔离工作区。" s)
  close_in s latest (some id) =
      if id == ""
      then some (refuse_success "【REFACTOR_FAIL】运行缺少隔离工作区。" s)
      else close_with s latest (lib.workspace_changed_paths id)

  -- Behind the checks. Without a test run the source raises IndexError.
  pub close_success : State → Option State
  unfolding close_in
  close_success s = elim (last? s.test_run_records) [
    | none ↦ none
    | some latest ↦ close_in s latest s.workspace_id
  ]

  unfoldable pub finalize_review_success_node : State → Option State
  unfolding close_success refusal_reason refuse_success
  finalize_review_success_node s = elim (last? s.messages) [
    | none ↦ none
    | some m ↦ elim (review_evidence_errors lib s) [
      | e ∷ es ↦ some (
          refuse_success
            (join_text ("【REFACTOR_FAIL】成功终态证据校验失败：" ∷ refusal_reason (e ∷ es) ∷ "。" ∷ [])) s)
      | [] ↦
          if mentions (get_message_text (content_of m)) "【REFACTOR_SUCCESS】"
          then close_success s
          else some (
              refuse_success
                (join_text ("【REFACTOR_FAIL】成功终态证据校验失败：" ∷ refusal_reason [] ∷ "。" ∷ [])) s)
    ]
  ]

  unfoldable failure_verdict : String → List String → String
  failure_verdict content errors =
      if mentions content "【REFACTOR_FAIL】"
      then "Developer 已达到最多 3 次重试，工作流终止。"
      else if mentions content "【REFACTOR_SUCCESS】"
      then elim errors [
        | e ∷ es ↦ join_text ("Reviewer 成功声明缺少有效证据：" ∷ join_with "；" (e ∷ es) ∷ "。" ∷ [])
        | [] ↦ "Reviewer 连续未返回规定的成功或失败标记，工作流按失败终止。"
      ]
      else "Reviewer 连续未返回规定的成功或失败标记，工作流按失败终止。"

  unfoldable finalize_review_failure_node : State → Option State
  unfolding failure_verdict fail_plan end_failed
  finalize_review_failure_node s = elim (last? s.messages) [
    | none ↦ none
    | some m ↦
        let reason =
          failure_verdict (get_message_text (content_of m)) (review_evidence_errors lib s) in
        some (fail_plan (end_failed (join_text ("【REFACTOR_FAIL】" ∷ reason ∷ [])) s))
  ]

-- The Reviewer has sent the work back.
pub developer_retry_node :
    (String → Option Json) → (String → String) → (ℕ → String) → State → Option State
developer_retry_node raw_decode strip decimal s =
    elim (reopen_tasks_after_review raw_decode strip s) [
      | none ↦ none
      | some ex ↦ some (record s {
        messages =
            s.messages
            ++ human (
                str (
                  join_text (
                    "[SYSTEM] 审查不通过。已开启第 "
                    ∷ decimal (s.retry_count + 1)
                    ∷ " 次重试，请开发者根据审查反馈进行修正。"
                    ∷ [])))
              ∷ [];
        retry_count = s.retry_count + 1;
        execution = ex;
      })
    ]
