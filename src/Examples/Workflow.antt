-- ===== src/Examples/Workflow.antt =====
-- A run of the graph without a plan, up to the application (backend/agent/workflow.py).
use refactor_agent.Common.{select, any_of, contains, distinct, ◌≡◌, refl, true, none, some, [], ◌∷◌}
use refactor_agent.Messages.{get_message_text, mentions, last?}
use refactor_agent.Evidence.{review_evidence_errors}
use refactor_agent.Routes.{
  route_architect, route_developer, route_task_scheduler, route_verdict, route_reviewer,
  schedule_task, developer, reviewer, finalize_review_success,
}
use refactor_agent.Workflow.{
  node_name, routed, targets, edge, routed_to, initialize_workspace, architect,
  prepare_workspace_approval, apply_workspace,
}
use refactor_agent.Workflow.Declared.{edge-declared}
use refactor_agent.Workflow.Traces.{
  Graph, on_disk, with_state, Calls, Reaches, IsAuthorised, Reaches-apply, starts, goes_on,
}
use refactor_agent.Workspace.Approval.{Run, snapshots_of, route_workspace_preparation}
use refactor_agent.Dict
use refactor_agent.Examples.Workspace.{split, lib, calm, diff, text, tested, unapproved}
use refactor_agent.State.{review_success}
use refactor_agent.Scheduler.{schedule_next_task_node}
use refactor_agent.Verdicts.{evidence_of, finalize_review_success_node}
use refactor_agent.Workspace.{Disk, workspace_changed_paths}
use refactor_agent.Workspace.Nodes.{evidence_on, prepare_workspace_approval_node}
use refactor_agent.Paths.{is_protected_path}

abbrev free : Run
free = record unapproved { state = record unapproved.state { refactor_plan = none } }

-- Every node that is a parameter may leave any run.
abbrev graph : Graph
graph = record {
  library = lib;
  diff = diff;
  text = text;
  encoder = λ candidates short n. "";
  fails = calm.fails;
  others = λ n r r'. Unit;
}

edge-declared_example :
    contains (node_name (routed_to finalize_review_success)) (targets (routed_to reviewer)) ≡ true
unfolding edge route_reviewer route_verdict evidence_on snapshots_of Dict.get any_of split select
    distinct contains review_evidence_errors last? mentions get_message_text
edge-declared_example =
    edge-declared (evidence_on lib text free.disk) (routed_to reviewer)
      (routed_to finalize_review_success) free refl

abbrev scheduled : Run
scheduled = with_state (schedule_next_task_node graph.encoder free.state) free

-- Somebody changes the source tree after the Reviewer has answered.
abbrev elsewhere : Disk
elsewhere = record free.disk { source = [] }

abbrev claimed : Run
claimed = on_disk elsewhere free

abbrev finished : Run
finished = record claimed {
  state = record free.state {
    review_status = some review_success;
    review_evidence =
        some
          (evidence_of (evidence_on lib text elsewhere) free.state tested ("CodeSmells/a.py" ∷ []));
  };
}

abbrev approvable : Run
approvable = (prepare_workspace_approval_node lib diff text calm.fails finished).0

behind_architect : Reaches graph (routed_to schedule_task) free
unfolding edge Calls routed route_architect last?
behind_architect =
    goes_on architect (routed_to schedule_task) free free free.disk
      (goes_on initialize_workspace architect free free free.disk (starts free) tt refl) tt refl

behind_scheduler : Reaches graph (routed_to developer) scheduled
unfolding edge Calls route_task_scheduler schedule_next_task_node
behind_scheduler =
    goes_on (routed_to schedule_task) (routed_to developer) free scheduled free.disk
      behind_architect refl refl

behind_developer : Reaches graph (routed_to reviewer) free
unfolding edge Calls route_developer last?
behind_developer =
    goes_on (routed_to developer) (routed_to reviewer) scheduled free free.disk behind_scheduler tt
      refl

behind_reviewer : Reaches graph (routed_to finalize_review_success) claimed
unfolding edge Calls route_reviewer last? mentions get_message_text review_evidence_errors
    evidence_on snapshots_of Dict.get any_of split select distinct contains
behind_reviewer =
    goes_on (routed_to reviewer) (routed_to finalize_review_success) free free elsewhere
      behind_developer tt refl

at_apply : Reaches graph apply_workspace approvable
unfolding edge Calls finalize_review_success_node last? review_evidence_errors mentions
    get_message_text prepare_workspace_approval_node Dict.get any_of route_workspace_preparation
    snapshots_of split select distinct contains is_protected_path evidence_on
    workspace_changed_paths
at_apply =
    goes_on prepare_workspace_approval apply_workspace finished approvable approvable.disk
      (goes_on (routed_to finalize_review_success) prepare_workspace_approval claimed finished
        elsewhere behind_reviewer (finished.state, refl, refl) refl)
      refl refl

Reaches-apply_example : IsAuthorised graph approvable
Reaches-apply_example = Reaches-apply graph approvable at_apply
