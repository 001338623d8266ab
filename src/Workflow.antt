-- ===== src/Workflow.antt =====
-- backend/agent/workflow.py, `build_agent_graph`: the nodes of the graph and the edges between them.
--
-- `edge` is what the graph does behind a node, with the route functions of edges.py (Routes) and
-- `route_workspace_preparation`; `targets` is what `build_agent_graph` declares for the node.
pub mod Declared
pub mod Before
pub mod Claims
pub mod Prepares
pub mod Traces
use refactor_agent.Common.{if◌then◌else◌, String, Option, none, some, List, [], ◌∷◌}
use refactor_agent.Routes.{
  Route, route_architect, route_developer, route_task_scheduler, route_reviewer, architect_tools,
  developer_tools, reviewer_tools, schedule_task, developer, reviewer, complete_task,
  developer_retry, reviewer_protocol_retry, finalize_review_success, finalize_review_failure,
  finalize_budget_failure, finalize_plan_failure,
}
use refactor_agent.Evidence.{EvidenceLibrary}
use refactor_agent.Workspace.Approval.{Run, route_workspace_preparation}

-- A node that an answer of edges.py names, or one that only fixed edges and
-- `route_workspace_preparation` name. `graph_end` is END.
pub data Node : Type 0 where
  routed_to : Route → Node
  initialize_workspace architect prepare_workspace_approval apply_workspace : Node
  cleanup_workspace graph_end : Node

pub route_name : Route → String
route_name architect_tools = "architect_tools"
route_name developer_tools = "developer_tools"
route_name reviewer_tools = "reviewer_tools"
route_name schedule_task = "schedule_task"
route_name developer = "developer"
route_name reviewer = "reviewer"
route_name complete_task = "complete_task"
route_name developer_retry = "developer_retry"
route_name reviewer_protocol_retry = "reviewer_protocol_retry"
route_name finalize_review_success = "finalize_review_success"
route_name finalize_review_failure = "finalize_review_failure"
route_name finalize_budget_failure = "finalize_budget_failure"
route_name finalize_plan_failure = "finalize_plan_failure"

pub node_name : Node → String
unfolding route_name
node_name (routed_to r) = route_name r
node_name initialize_workspace = "initialize_workspace"
node_name architect = "architect"
node_name prepare_workspace_approval = "prepare_workspace_approval"
node_name apply_workspace = "apply_workspace"
node_name cleanup_workspace = "cleanup_workspace"
node_name graph_end = "__end__"

unfoldable pub routed : Option Route → Option Node
routed none = none
routed (some r) = some (routed_to r)

-- The edges that are declared behind a node: the target of a fixed edge, or the keys of the mapping
-- of a conditional one.
pub targets : Node → List String
targets initialize_workspace = "architect" ∷ []
targets architect = "architect_tools" ∷ "schedule_task" ∷ "finalize_budget_failure" ∷ []
targets (routed_to architect_tools) = "architect" ∷ []
targets (routed_to schedule_task) =
    "developer" ∷ "reviewer" ∷ "finalize_budget_failure" ∷ "finalize_plan_failure" ∷ []
targets (routed_to developer) =
    "developer_tools" ∷ "complete_task" ∷ "reviewer" ∷ "finalize_budget_failure" ∷ []
targets (routed_to developer_tools) = "developer" ∷ []
targets (routed_to complete_task) = "schedule_task" ∷ []
targets (routed_to developer_retry) = "schedule_task" ∷ []
targets (routed_to reviewer) =
    "reviewer_tools" ∷ "developer_retry" ∷ "reviewer_protocol_retry" ∷ "finalize_budget_failure"
    ∷ "finalize_review_success" ∷ "finalize_review_failure" ∷ []
targets (routed_to reviewer_tools) = "reviewer" ∷ []
targets (routed_to reviewer_protocol_retry) = "reviewer" ∷ []
targets (routed_to finalize_budget_failure) = "cleanup_workspace" ∷ []
targets (routed_to finalize_plan_failure) = "cleanup_workspace" ∷ []
targets (routed_to finalize_review_success) = "prepare_workspace_approval" ∷ []
targets prepare_workspace_approval = "apply_workspace" ∷ "cleanup_workspace" ∷ []
targets apply_workspace = "__end__" ∷ []
targets (routed_to finalize_review_failure) = "cleanup_workspace" ∷ []
targets cleanup_workspace = "__end__" ∷ []
targets graph_end = []

module _ (lib : EvidenceLibrary) where
  -- The node behind this one, in the run that it has left. None where an edge raises, and behind
  -- the end.
  unfoldable pub edge : Node → Run → Option Node
  unfolding routed
  edge initialize_workspace r = some architect
  edge architect r = routed (route_architect r.state)
  edge (routed_to architect_tools) r = some architect
  edge (routed_to schedule_task) r = routed (some (route_task_scheduler r.state))
  edge (routed_to developer) r = routed (route_developer r.state)
  edge (routed_to developer_tools) r = some (routed_to developer)
  edge (routed_to complete_task) r = some (routed_to schedule_task)
  edge (routed_to developer_retry) r = some (routed_to schedule_task)
  edge (routed_to reviewer) r = routed (route_reviewer lib r.state)
  edge (routed_to reviewer_tools) r = some (routed_to reviewer)
  edge (routed_to reviewer_protocol_retry) r = some (routed_to reviewer)
  edge (routed_to finalize_budget_failure) r = some cleanup_workspace
  edge (routed_to finalize_plan_failure) r = some cleanup_workspace
  edge (routed_to finalize_review_success) r = some prepare_workspace_approval
  edge prepare_workspace_approval r =
      if route_workspace_preparation r then some apply_workspace else some cleanup_workspace
  edge apply_workspace r = some graph_end
  edge (routed_to finalize_review_failure) r = some cleanup_workspace
  edge cleanup_workspace r = some graph_end
  edge graph_end r = none
