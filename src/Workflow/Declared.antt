-- ===== src/Workflow/Declared.antt =====
-- Each answer of an edge is among those that the graph declares (backend/agent/workflow.py).
use refactor_agent.Common.{
  ltb, if◌then◌else◌, Bool-cases, Option-cases, is_set, any_of, contains, String, ◌≡◌, refl, subst,
  inl, inr, Bool, true, false, not, Option, none, some, some-injective, List, [], ◌∷◌, arith,
}
use refactor_agent.State.{
  PlanStatus, State, plan_pending, plan_running, plan_completed, plan_failed, plan_fallback,
}
use refactor_agent.Messages.{get_message_text, mentions, content_of, last?}
use refactor_agent.Evidence.{EvidenceLibrary, review_evidence_errors}
use refactor_agent.Workspace.Approval.{Run, route_workspace_preparation}
use refactor_agent.Routes.{
  max_developer_retries, max_review_protocol_errors, Route, has_tool_calls, is_planned,
  route_architect, route_developer, route_planned, route_task_scheduler, retry_protocol,
  route_judged, route_verdict, route_reviewer, architect_tools, developer_tools, reviewer_tools,
  schedule_task, developer, reviewer, complete_task, developer_retry, reviewer_protocol_retry,
  finalize_review_success, finalize_review_failure, finalize_budget_failure, finalize_plan_failure,
}
use refactor_agent.Workflow.{
  Node, route_name, node_name, routed, targets, edge, routed_to, initialize_workspace, architect,
  prepare_workspace_approval, apply_workspace, cleanup_workspace, graph_end,
}

routed-declared :
    (o : Option Route) (n m : Node)
    → ((a : Route) → o ≡ some a → contains (route_name a) (targets n) ≡ true)
    → routed o ≡ some m
    → contains (node_name m) (targets n) ≡ true
unfolding routed node_name
routed-declared none n m k h = absurd (ground (arith, h))
routed-declared (some a) n m k h =
    subst (λ u. contains (node_name u) (targets n) ≡ true) (some-injective (routed_to a) m h)
      (k a refl)

fixed-declared :
    (u m : Node) (ts : List String)
    → contains (node_name u) ts ≡ true
    → some u ≡ some m
    → contains (node_name m) ts ≡ true
fixed-declared u m ts c h = subst (λ v. contains (node_name v) ts ≡ true) (some-injective u m h) c

chosen-declared :
    (a u : Route) (ts : List String)
    → contains (route_name u) ts ≡ true
    → some u ≡ some a
    → contains (route_name a) ts ≡ true
chosen-declared a u ts c h = subst (λ v. contains (route_name v) ts ≡ true) (some-injective u a h) c

choice-declared :
    (ts : List String) (b : Bool) (x y : Route)
    → contains (route_name x) ts ≡ true
    → contains (route_name y) ts ≡ true
    → contains (route_name (if b then x else y)) ts ≡ true
choice-declared ts true x y p q = p
choice-declared ts false x y p q = q

route_architect-declared :
    (s : State) (a : Route)
    → route_architect s ≡ some a
    → contains (route_name a) (targets architect) ≡ true
unfolding route_architect targets route_name contains any_of
route_architect-declared s a h =
    let ts : List String = targets architect in
    elim (Bool-cases s.budget_exceeded) [
      | inl b ↦ chosen-declared a finalize_budget_failure ts refl (ground (arith, b))
      | inr b ↦ elim (Option-cases (last? s.messages)) [
        | inl e ↦ absurd (ground (arith, b, e))
        | inr (m, e) ↦ elim (Bool-cases (has_tool_calls m)) [
          | inl t ↦ chosen-declared a architect_tools ts refl (ground (arith, b, e, t))
          | inr t ↦ chosen-declared a schedule_task ts refl (ground (arith, b, e, t))
        ]
      ]
    ]

route_developer-declared :
    (s : State) (a : Route)
    → route_developer s ≡ some a
    → contains (route_name a) (targets (routed_to developer)) ≡ true
unfolding route_developer targets route_name contains any_of
route_developer-declared s a h =
    let ts : List String = targets (routed_to developer) in
    let ended : contains
          (route_name (if is_planned s then complete_task else finalize_budget_failure)) ts
        ≡ true =
      choice-declared ts (is_planned s) complete_task finalize_budget_failure refl refl in
    elim (Bool-cases s.budget_exceeded) [
      | inl b ↦
          chosen-declared a (if is_planned s then complete_task else finalize_budget_failure) ts
            ended (ground (arith, b))
      | inr b ↦ elim (Option-cases (last? s.messages)) [
        | inl e ↦ absurd (ground (arith, b, e))
        | inr (m, e) ↦ elim (Bool-cases (has_tool_calls m)) [
          | inl t ↦ chosen-declared a developer_tools ts refl (ground (arith, b, e, t))
          | inr t ↦
              chosen-declared a (if is_planned s then complete_task else reviewer) ts
                (choice-declared ts (is_planned s) complete_task reviewer refl refl)
                (ground (arith, b, e, t))
        ]
      ]
    ]

route_planned-declared :
    (s : State) (o : Option PlanStatus)
    → contains (route_name (route_planned s o)) (targets (routed_to schedule_task)) ≡ true
unfolding route_planned targets route_name contains any_of
route_planned-declared s none =
    choice-declared (targets (routed_to schedule_task)) (is_set s.active_task_id) developer
      finalize_plan_failure refl refl
route_planned-declared s (some plan_pending) =
    choice-declared (targets (routed_to schedule_task)) (is_set s.active_task_id) developer
      finalize_plan_failure refl refl
route_planned-declared s (some plan_running) =
    choice-declared (targets (routed_to schedule_task)) (is_set s.active_task_id) developer
      finalize_plan_failure refl refl
route_planned-declared s (some plan_completed) = refl
route_planned-declared s (some plan_failed) =
    choice-declared (targets (routed_to schedule_task)) s.budget_exceeded finalize_budget_failure
      finalize_plan_failure refl refl
route_planned-declared s (some plan_fallback) =
    choice-declared (targets (routed_to schedule_task)) (is_set s.active_task_id) developer
      finalize_plan_failure refl refl

route_task_scheduler-declared :
    (s : State)
    → contains (route_name (route_task_scheduler s)) (targets (routed_to schedule_task)) ≡ true
unfolding route_task_scheduler targets route_name contains any_of
route_task_scheduler-declared s =
    choice-declared (targets (routed_to schedule_task)) (not (is_planned s)) developer
      (route_planned s s.plan_status) refl (route_planned-declared s s.plan_status)

retry_protocol-declared :
    (s : State) → contains (route_name (retry_protocol s)) (targets (routed_to reviewer)) ≡ true
unfolding retry_protocol targets route_name contains any_of
retry_protocol-declared s =
    choice-declared (targets (routed_to reviewer))
      (ltb s.review_protocol_errors max_review_protocol_errors) reviewer_protocol_retry
      finalize_review_failure refl refl

judged_declared :
    (s : State) (errors : List String)
    → contains (route_name (route_judged s errors)) (targets (routed_to reviewer)) ≡ true
unfolding route_judged targets route_name contains any_of
judged_declared s [] = refl
judged_declared s (e ∷ es) = retry_protocol-declared s

module _ (lib : EvidenceLibrary) where
  route_verdict-declared :
      (s : State) (content : String)
      → contains (route_name (route_verdict lib s content)) (targets (routed_to reviewer)) ≡ true
  unfolding route_verdict targets route_name contains any_of
  route_verdict-declared s content =
      let ts : List String = targets (routed_to reviewer) in
      let fail : Route =
        if ltb s.retry_count max_developer_retries
        then developer_retry
        else finalize_review_failure in
      let judged : Route = route_judged s (review_evidence_errors lib s) in
      let claimed : Bool = mentions content "【REFACTOR_SUCCESS】" in
      choice-declared ts (mentions content "【REFACTOR_FAIL】") fail
        (if claimed then judged else retry_protocol s)
        (choice-declared ts (ltb s.retry_count max_developer_retries) developer_retry
          finalize_review_failure refl refl)
        (choice-declared ts claimed judged (retry_protocol s)
          (judged_declared s (review_evidence_errors lib s)) (retry_protocol-declared s))

  route_reviewer-declared :
      (s : State) (a : Route)
      → route_reviewer lib s ≡ some a
      → contains (route_name a) (targets (routed_to reviewer)) ≡ true
  unfolding route_reviewer targets route_name contains any_of
  route_reviewer-declared s a h =
      let ts : List String = targets (routed_to reviewer) in
      elim (Bool-cases s.budget_exceeded) [
        | inl b ↦ chosen-declared a finalize_budget_failure ts refl (ground (arith, b))
        | inr b ↦ elim (Option-cases (last? s.messages)) [
          | inl e ↦ absurd (ground (arith, b, e))
          | inr (m, e) ↦
              let verdict : Route = route_verdict lib s (get_message_text (content_of m)) in
              chosen-declared a (if has_tool_calls m then reviewer_tools else verdict) ts
                (choice-declared ts (has_tool_calls m) reviewer_tools verdict refl
                  (route_verdict-declared s (get_message_text (content_of m))))
                (ground (arith, b, e))
        ]
      ]

  -- Whatever an edge answers, in any state of the run, is a target that the graph declares for the
  -- node: no answer lacks an entry in the mapping of its conditional edge.
  pub edge-declared :
      (n m : Node) (r : Run) → edge lib n r ≡ some m → contains (node_name m) (targets n) ≡ true
  unfolding edge routed targets node_name contains any_of
  edge-declared initialize_workspace m r h =
      fixed-declared architect m (targets initialize_workspace) refl h
  edge-declared architect m r h =
      routed-declared (route_architect r.state) architect m (route_architect-declared r.state) h
  edge-declared (routed_to schedule_task) m r h =
      fixed-declared (routed_to (route_task_scheduler r.state)) m
        (targets (routed_to schedule_task)) (route_task_scheduler-declared r.state) h
  edge-declared (routed_to developer) m r h =
      routed-declared (route_developer r.state) (routed_to developer) m
        (route_developer-declared r.state) h
  edge-declared (routed_to reviewer) m r h =
      routed-declared (route_reviewer lib r.state) (routed_to reviewer) m
        (route_reviewer-declared r.state) h
  edge-declared prepare_workspace_approval m r h =
      elim (Bool-cases (route_workspace_preparation r)) [
        | inl b ↦
            fixed-declared apply_workspace m (targets prepare_workspace_approval) refl
              (ground (arith, b))
        | inr b ↦
            fixed-declared cleanup_workspace m (targets prepare_workspace_approval) refl
              (ground (arith, b))
      ]
  edge-declared graph_end m r h = absurd (ground (arith, h))
  edge-declared (routed_to architect_tools) m r h =
      fixed-declared architect m (targets (routed_to architect_tools)) refl h
  edge-declared (routed_to developer_tools) m r h =
      fixed-declared (routed_to developer) m (targets (routed_to developer_tools)) refl h
  edge-declared (routed_to complete_task) m r h =
      fixed-declared (routed_to schedule_task) m (targets (routed_to complete_task)) refl h
  edge-declared (routed_to developer_retry) m r h =
      fixed-declared (routed_to schedule_task) m (targets (routed_to developer_retry)) refl h
  edge-declared (routed_to reviewer_tools) m r h =
      fixed-declared (routed_to reviewer) m (targets (routed_to reviewer_tools)) refl h
  edge-declared (routed_to reviewer_protocol_retry) m r h =
      fixed-declared (routed_to reviewer) m (targets (routed_to reviewer_protocol_retry)) refl h
  edge-declared (routed_to finalize_budget_failure) m r h =
      fixed-declared cleanup_workspace m (targets (routed_to finalize_budget_failure)) refl h
  edge-declared (routed_to finalize_plan_failure) m r h =
      fixed-declared cleanup_workspace m (targets (routed_to finalize_plan_failure)) refl h
  edge-declared (routed_to finalize_review_success) m r h =
      fixed-declared prepare_workspace_approval m (targets (routed_to finalize_review_success)) refl
        h
  edge-declared (routed_to finalize_review_failure) m r h =
      fixed-declared cleanup_workspace m (targets (routed_to finalize_review_failure)) refl h
  edge-declared apply_workspace m r h = fixed-declared graph_end m (targets apply_workspace) refl h
  edge-declared cleanup_workspace m r h =
      fixed-declared graph_end m (targets cleanup_workspace) refl h
