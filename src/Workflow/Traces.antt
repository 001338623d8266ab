-- ===== src/Workflow/Traces.antt =====
-- What lies before the application in a run of the graph (backend/agent/workflow.py).
--
-- The graph calls the node that it has come to and follows the edge behind it. The nodes that ask a
-- model or call tools, and those whose calls are modelled apart from the run, are a parameter: they
-- may do anything.
use refactor_agent.Common.{
  if◌then◌else◌, Bool-cases, contains, String, ◌≡◌, refl, sym, ap, subst, ◌∙◌, ◌≢◌, inl, inr, Bool,
  true, Option, none, some, arith,
}
use refactor_agent.State.{State}
use refactor_agent.Evidence.{EvidenceLibrary}
use refactor_agent.Routes.{
  Route, route_reviewer, schedule_task, reviewer, reviewer_protocol_retry, finalize_review_success,
}
use refactor_agent.Dependencies.{Encoder}
use refactor_agent.Scheduler.{schedule_next_task_node}
use refactor_agent.Verdicts.{reviewer_protocol_retry_node, finalize_review_success_node}
use refactor_agent.Workflow.{
  Node, node_name, routed, targets, edge, routed_to, initialize_workspace,
  prepare_workspace_approval, apply_workspace, cleanup_workspace,
}
use refactor_agent.Workflow.Before.{
  before_apply_workspace, before_prepare_workspace_approval, before_finalize_review_success,
}
use refactor_agent.Workflow.Claims.{IsClaim, route_reviewer-IsClaim, ClosedAs, claim-ClosedAs}
use refactor_agent.Workflow.Prepares.{prepare_workspace_approval_node-fixed}
use refactor_agent.Workspace.{Disk, WorkspaceLibrary, Operation}
use refactor_agent.Workspace.Approval.{
  Run, DiffLibrary, snapshots_of, cleanup_workspace_node, route_workspace_preparation,
}
use refactor_agent.Workspace.Prepared.{IsApprovable}
use refactor_agent.Workspace.Apply.{given}
use refactor_agent.Workspace.Nodes.{EvidenceText, evidence_on, prepare_workspace_approval_node}
use refactor_agent.Workflow.Declared.{edge-declared}

-- What the nodes work with.
pub record Graph : Type 1 where
  pub library : WorkspaceLibrary
  pub diff : DiffLibrary
  pub text : EvidenceText
  pub encoder : Encoder
  pub fails : Operation → Bool
  pub others : Node → Run → Run → Type 0

-- The run on another disk.
abbrev pub on_disk : Disk → Run → Run
on_disk disk r = record r { disk = disk }

abbrev pub with_state : State → Run → Run
with_state s r = record r { state = s }

routed-injective : (o : Option Route) (a : Route) → routed o ≡ some (routed_to a) → o ≡ some a
unfolding routed
routed-injective none a h = absurd (ground (arith, h))
routed-injective (some b) a h = ground (arith, h)

module _ (graph : Graph) where
  open graph use {library, diff, text, encoder, fails, others}

  -- What the evidence check reads in this run.
  abbrev pub evidence_in : Run → EvidenceLibrary
  evidence_in r = evidence_on library text r.disk

  -- A call of the node, in the first run, leaves the second.
  unfoldable pub Calls : Node → Run → Run → Type 0
  Calls (routed_to schedule_task) r r' = with_state (schedule_next_task_node encoder r.state) r ≡ r'
  Calls (routed_to reviewer_protocol_retry) r r' =
      with_state (reviewer_protocol_retry_node (evidence_in r) r.state) r ≡ r'
  Calls (routed_to finalize_review_success) r r' =
      (t : State) × (finalize_review_success_node (evidence_in r) r.state ≡ some t)
      × (with_state t r ≡ r')
  Calls prepare_workspace_approval r r' =
      prepare_workspace_approval_node library diff text fails r ≡ (r', none)
  Calls cleanup_workspace r r' = cleanup_workspace_node fails r ≡ r'
  Calls n r r' = others n r r'

  -- The graph comes to the node in this run. Between two nodes others may change the disk.
  pub data Reaches : Node → Run → Type 0 where
    starts : (r : Run) → Reaches initialize_workspace r
    goes_on :
        (n m : Node) (r r' : Run) (disk : Disk)
        → Reaches n r
        → Calls n r r'
        → edge (evidence_in r') n r' ≡ some m
        → Reaches m (on_disk disk r')

  -- A node that the graph comes to from another: that one's call, and the edge behind it.
  pub record Arrives (n m : Node) (r : Run) : Type 0 where
    pub entered : Run
    pub left : Run
    pub reached : Reaches n entered
    pub called : Calls n entered left
    pub follows : edge (evidence_in left) n left ≡ some m
    pub same_state : left.state ≡ r.state
    pub same_work : left.work ≡ r.work

  -- Where only one node declares an edge to this one, the graph has come from there.
  Reaches-Arrives :
      (k n m : Node) (name : String) (r : Run)
      → node_name m ≡ name
      → ((u : Node) → contains name (targets u) ≡ true → u ≡ n)
      → (initialize_workspace ≢ m)
      → Reaches k r
      → k ≡ m
      → Arrives n m r
  Reaches-Arrives k n m name r named only apart (starts _) e = absurd (apart e)
  Reaches-Arrives k n m name r named only apart (goes_on u _ before after disk h c f) e =
      let g : edge (evidence_in after) u after ≡ some m =
        subst (λ x. edge (evidence_in after) u after ≡ some x) e f in
      let declared : contains name (targets u) ≡ true =
        subst (λ x. contains x (targets u) ≡ true) named
          (edge-declared (evidence_in after) u m after g) in
      let same : u ≡ n = only u declared in
      record {
        entered = before;
        left = after;
        reached = subst (λ x. Reaches x before) same h;
        called = subst (λ x. Calls x before after) same c;
        follows = subst (λ x. edge (evidence_in after) x after ≡ some m) same g;
        same_state = refl;
        same_work = refl;
      }

  -- What lies behind the application: what the Reviewer left, in `review.left`; how the success was
  -- recorded, on the disk of the run `closing`; and what was prepared, on the disk `found`.
  pub record IsAuthorised (r : Run) : Type 0 where
    pub closing : Run
    pub review : Arrives (routed_to reviewer) (routed_to finalize_review_success) closing
    pub claim : IsClaim (evidence_in review.left) review.left.state
    pub closed : ClosedAs (evidence_in closing) review.left.state r.state
    pub found : Disk
    pub id : String
    pub named : given r.state.workspace_id ≡ some id
    pub approvable :
        IsApprovable library diff
          (evidence_on library text found)
          r.state
          (snapshots_of id found)
          r.work

  reviewed-IsClaim :
      (q : Run)
      → (a : Arrives (routed_to reviewer) (routed_to finalize_review_success) q)
      → IsClaim (evidence_in a.left) a.left.state
  unfolding edge
  reviewed-IsClaim q a =
      let chosen : routed (route_reviewer (evidence_in a.left) a.left.state)
          ≡ some (routed_to finalize_review_success) =
        a.follows in
      route_reviewer-IsClaim (evidence_in a.left) a.left.state (
        routed-injective (route_reviewer (evidence_in a.left) a.left.state) finalize_review_success
          chosen)

  prepared-ready :
      (r : Run)
      → (a : Arrives prepare_workspace_approval apply_workspace r)
      → route_workspace_preparation a.left ≡ true
  unfolding edge
  prepared-ready r a = elim (Bool-cases (route_workspace_preparation a.left)) [
    | inl e ↦ e
    | inr e ↦
        let f : (if route_workspace_preparation a.left
              then some apply_workspace
              else some cleanup_workspace)
            ≡ some apply_workspace =
          a.follows in
        absurd (ground (arith, e, f))
  ]

  -- Others may change the disk between any two nodes. Whenever the graph comes to the application,
  -- the Reviewer's last message has claimed success, and the evidence was complete on the disk as it
  -- was then; behind it the success was recorded, with the evidence complete on the disk as it was
  -- when it was recorded, or it was turned down with no evidence kept; and the preparation has found
  -- the evidence complete once more, on its own disk, and has fixed the diff, the hashes and the
  -- digest of the files on that disk.
  pub Reaches-apply : (r : Run) → Reaches apply_workspace r → IsAuthorised r
  unfolding Calls node_name
  Reaches-apply r h =
      let prepared : Arrives prepare_workspace_approval apply_workspace r =
        Reaches-Arrives apply_workspace prepare_workspace_approval apply_workspace "apply_workspace"
          r refl before_apply_workspace (λ e. ground (arith, e)) h refl in
      let p : Run = prepared.entered in
      let finished : Arrives (routed_to finalize_review_success) prepare_workspace_approval p =
        Reaches-Arrives prepare_workspace_approval (routed_to finalize_review_success)
          prepare_workspace_approval "prepare_workspace_approval" p refl
          before_prepare_workspace_approval (λ e. ground (arith, e)) prepared.reached refl in
      let q : Run = finished.entered in
      let review : Arrives (routed_to reviewer) (routed_to finalize_review_success) q =
        Reaches-Arrives (routed_to finalize_review_success) (routed_to reviewer)
          (routed_to finalize_review_success) "finalize_review_success" q refl
          before_finalize_review_success (λ e. ground (arith, e)) finished.reached refl in
      let claim : IsClaim (evidence_in review.left) review.left.state = reviewed-IsClaim q review in
      let (t, ended, left) = finished.called in
      let (kept, (id, named, fixed)) =
        prepare_workspace_approval_node-fixed library diff text fails p prepared.left
          prepared.called (prepared-ready r prepared) in
      let to_r : p.state ≡ r.state = kept ∙ prepared.same_state in
      let from_t : t ≡ r.state = ap (λ (x : Run). x.state) left ∙ finished.same_state ∙ to_r in
      let closed : ClosedAs (evidence_in q) review.left.state t =
        claim-ClosedAs (evidence_in review.left) (evidence_in q) review.left.state t claim (
          subst (λ s. finalize_review_success_node (evidence_in q) s ≡ some t)
            (sym review.same_state) ended) in
      record {
        closing = q;
        review = review;
        claim = claim;
        closed = subst (ClosedAs (evidence_in q) review.left.state) from_t closed;
        found = p.disk;
        id = id;
        named = subst (λ (s : State). given s.workspace_id ≡ some id) to_r named;
        approvable =
            subst
              (λ s.
                IsApprovable library diff (evidence_on library text p.disk) s
                  (snapshots_of id p.disk) r.work)
              to_r
              (subst
                (IsApprovable library diff (evidence_on library text p.disk) p.state
                  (snapshots_of id p.disk))
                prepared.same_work fixed);
      }
