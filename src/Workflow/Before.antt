-- ===== src/Workflow/Before.antt =====
-- Which node lies before the ones that lead to the application (backend/agent/workflow.py).
use refactor_agent.Common.{any_of, contains, ◌≡◌, refl, true, arith}
use refactor_agent.Routes.{
  architect_tools, developer_tools, reviewer_tools, schedule_task, developer, reviewer,
  complete_task, developer_retry, reviewer_protocol_retry, finalize_review_success,
  finalize_review_failure, finalize_budget_failure, finalize_plan_failure,
}
use refactor_agent.Workflow.{
  Node, targets, routed_to, initialize_workspace, architect, prepare_workspace_approval,
  apply_workspace, cleanup_workspace, graph_end,
}

pub before_apply_workspace :
    (n : Node) → contains "apply_workspace" (targets n) ≡ true → n ≡ prepare_workspace_approval
unfolding targets contains any_of
before_apply_workspace (routed_to architect_tools) h = absurd (ground (arith, h))
before_apply_workspace (routed_to developer_tools) h = absurd (ground (arith, h))
before_apply_workspace (routed_to reviewer_tools) h = absurd (ground (arith, h))
before_apply_workspace (routed_to schedule_task) h = absurd (ground (arith, h))
before_apply_workspace (routed_to developer) h = absurd (ground (arith, h))
before_apply_workspace (routed_to reviewer) h = absurd (ground (arith, h))
before_apply_workspace (routed_to complete_task) h = absurd (ground (arith, h))
before_apply_workspace (routed_to developer_retry) h = absurd (ground (arith, h))
before_apply_workspace (routed_to reviewer_protocol_retry) h = absurd (ground (arith, h))
before_apply_workspace (routed_to finalize_review_success) h = absurd (ground (arith, h))
before_apply_workspace (routed_to finalize_review_failure) h = absurd (ground (arith, h))
before_apply_workspace (routed_to finalize_budget_failure) h = absurd (ground (arith, h))
before_apply_workspace (routed_to finalize_plan_failure) h = absurd (ground (arith, h))
before_apply_workspace initialize_workspace h = absurd (ground (arith, h))
before_apply_workspace architect h = absurd (ground (arith, h))
before_apply_workspace prepare_workspace_approval h = refl
before_apply_workspace apply_workspace h = absurd (ground (arith, h))
before_apply_workspace cleanup_workspace h = absurd (ground (arith, h))
before_apply_workspace graph_end h = absurd (ground (arith, h))

pub before_prepare_workspace_approval :
    (n : Node)
    → contains "prepare_workspace_approval" (targets n) ≡ true
    → n ≡ routed_to finalize_review_success
unfolding targets contains any_of
before_prepare_workspace_approval (routed_to architect_tools) h = absurd (ground (arith, h))
before_prepare_workspace_approval (routed_to developer_tools) h = absurd (ground (arith, h))
before_prepare_workspace_approval (routed_to reviewer_tools) h = absurd (ground (arith, h))
before_prepare_workspace_approval (routed_to schedule_task) h = absurd (ground (arith, h))
before_prepare_workspace_approval (routed_to developer) h = absurd (ground (arith, h))
before_prepare_workspace_approval (routed_to reviewer) h = absurd (ground (arith, h))
before_prepare_workspace_approval (routed_to complete_task) h = absurd (ground (arith, h))
before_prepare_workspace_approval (routed_to developer_retry) h = absurd (ground (arith, h))
before_prepare_workspace_approval (routed_to reviewer_protocol_retry) h = absurd (ground (arith, h))
before_prepare_workspace_approval (routed_to finalize_review_success) h = refl
before_prepare_workspace_approval (routed_to finalize_review_failure) h = absurd (ground (arith, h))
before_prepare_workspace_approval (routed_to finalize_budget_failure) h = absurd (ground (arith, h))
before_prepare_workspace_approval (routed_to finalize_plan_failure) h = absurd (ground (arith, h))
before_prepare_workspace_approval initialize_workspace h = absurd (ground (arith, h))
before_prepare_workspace_approval architect h = absurd (ground (arith, h))
before_prepare_workspace_approval prepare_workspace_approval h = absurd (ground (arith, h))
before_prepare_workspace_approval apply_workspace h = absurd (ground (arith, h))
before_prepare_workspace_approval cleanup_workspace h = absurd (ground (arith, h))
before_prepare_workspace_approval graph_end h = absurd (ground (arith, h))

pub before_finalize_review_success :
    (n : Node) → contains "finalize_review_success" (targets n) ≡ true → n ≡ routed_to reviewer
unfolding targets contains any_of
before_finalize_review_success (routed_to architect_tools) h = absurd (ground (arith, h))
before_finalize_review_success (routed_to developer_tools) h = absurd (ground (arith, h))
before_finalize_review_success (routed_to reviewer_tools) h = absurd (ground (arith, h))
before_finalize_review_success (routed_to schedule_task) h = absurd (ground (arith, h))
before_finalize_review_success (routed_to developer) h = absurd (ground (arith, h))
before_finalize_review_success (routed_to reviewer) h = refl
before_finalize_review_success (routed_to complete_task) h = absurd (ground (arith, h))
before_finalize_review_success (routed_to developer_retry) h = absurd (ground (arith, h))
before_finalize_review_success (routed_to reviewer_protocol_retry) h = absurd (ground (arith, h))
before_finalize_review_success (routed_to finalize_review_success) h = absurd (ground (arith, h))
before_finalize_review_success (routed_to finalize_review_failure) h = absurd (ground (arith, h))
before_finalize_review_success (routed_to finalize_budget_failure) h = absurd (ground (arith, h))
before_finalize_review_success (routed_to finalize_plan_failure) h = absurd (ground (arith, h))
before_finalize_review_success initialize_workspace h = absurd (ground (arith, h))
before_finalize_review_success architect h = absurd (ground (arith, h))
before_finalize_review_success prepare_workspace_approval h = absurd (ground (arith, h))
before_finalize_review_success apply_workspace h = absurd (ground (arith, h))
before_finalize_review_success cleanup_workspace h = absurd (ground (arith, h))
before_finalize_review_success graph_end h = absurd (ground (arith, h))
