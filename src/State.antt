-- ===== src/State.antt =====
-- backend/agent/state.py: the state of the agent graph. A field that a node leaves out of its
-- result stays as it is; a field that the source reads with a default has it from the start.
use refactor_agent.Common.{ℤ, ℕ, String, Bool, Option, List}
use refactor_agent.Dict.{Dict}
use refactor_agent.Messages.{Message}
use refactor_agent.Plans.{RefactorPlan}

pub data TaskStatus : Type 0 where
  pending running completed failed blocked : TaskStatus

pub data PlanStatus : Type 0 where
  plan_pending plan_running plan_completed plan_failed plan_fallback : PlanStatus

pub data ReviewStatus : Type 0 where
  review_running review_success review_failed : ReviewStatus

pub data FailureKind : Type 0 where
  dependency_context_error budget_overrun task_incomplete : FailureKind

pub record TaskFailure : Type 0 where
  pub reason : String
  pub failure_kind : FailureKind
  pub retry_count : ℕ

-- Keys that a transition may lack are options.
pub record TaskTransition : Type 0 where
  pub task_id : String
  pub status : TaskStatus
  pub reason : Option String
  pub retry_count : Option ℕ
  pub blocked_task_ids : Option (List String)

pub data SyntaxStatus : Type 0 where
  syntax_valid syntax_invalid syntax_deleted : SyntaxStatus

pub record TaskDependencyResult : Type 0 where
  pub task_id : String
  pub modified_files : List String
  pub change_summary : String
  pub symbols : List String
  pub workspace_snapshot_digest : String
  pub content_sha256 : Option String
  pub syntax_status : SyntaxStatus

-- What the scheduler keeps of a plan under execution.
pub record Execution : Type 0 where
  pub task_statuses : Dict TaskStatus
  pub active_task_id : Option String
  pub completed_task_ids : List String
  pub task_failures : Dict TaskFailure
  pub task_retry_counts : Dict ℕ
  pub task_results : Dict TaskDependencyResult
  pub plan_status : Option PlanStatus
  pub active_task_write_succeeded : Bool
  pub active_task_failure_reason : Option String
  pub task_transition : Option TaskTransition

pub record ChangeRecord : Type 0 where
  pub file_path : String
  pub before_sha256 : String
  pub after_sha256 : String
  pub added_lines : ℕ
  pub removed_lines : ℕ
  pub unified_diff : String
  pub diff_truncated : Bool

pub record TestRunRecord : Type 0 where
  pub suite : String
  pub success : Bool
  pub exit_code : ℤ
  pub change_set_digest : String
  pub workspace_snapshot_digest : String
  pub workspace_stable : Bool
  pub behavior_contract_included : Bool
  pub success_marker_present : Bool
  pub output_excerpt : String

pub record ReviewEvidence : Type 0 where
  pub changed_files : List String
  pub change_set_digest : String
  pub workspace_snapshot_digest : String
  pub test_suite : String
  pub test_success : Bool
  pub test_exit_code : ℤ

pub record State : Type 0 where
  pub messages : List Message
  pub retry_count : ℕ
  pub review_protocol_errors : ℕ
  pub review_status : Option ReviewStatus
  pub change_records : List ChangeRecord
  pub test_run_records : List TestRunRecord
  pub review_evidence : Option ReviewEvidence
  pub refactor_plan : Option RefactorPlan
  pub plan_error : Option String
  pub execution : Execution
  pub open execution use *
  pub budget_exceeded : Bool
  pub budget_reason : Option String
  pub workspace_id : Option String
