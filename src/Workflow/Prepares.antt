-- ===== src/Workflow/Prepares.antt =====
-- What `prepare_workspace_approval_node` has found where the application may be asked for
-- (backend/agent/workspace.py).
use refactor_agent.Common.{
  Option-cases, String, ◌≡◌, refl, sym, ap, subst, ◌∙◌, inl, inr, Bool, true, false, Option, none,
  some, arith,
}
use refactor_agent.State.{review_failed}
use refactor_agent.Evidence.{EvidenceLibrary}
use refactor_agent.Workspace.{
  Disk, WorkspaceLibrary, Operation, Failure, Outcome, missing_workspace, returned, raised,
}
use refactor_agent.Workspace.Apply.{WorkspaceState, given}
use refactor_agent.Workspace.Approval.{
  Run, DiffLibrary, set_review, snapshots_of, cleanup_run_workspace, route_workspace_preparation,
}
use refactor_agent.Workspace.Prepared.{IsApprovable, prepare_workspace_approval_node-IsApprovable}
use refactor_agent.Workspace.Nodes.{
  EvidenceText, evidence_on, preparation_failed, try_preparation, settle_preparation, prepare_with,
  prepare_workspace_approval_node,
}

module _ (lib : WorkspaceLibrary) (diff : DiffLibrary) (evidence : EvidenceLibrary)
    (fails : Operation → Bool) where
  -- The runs have one state, and it names a workspace.
  abbrev pub Keeps : Run → Run → Type 0
  Keeps r r' = (r.state ≡ r'.state) × ((id : String) × (given r.state.workspace_id ≡ some id))

  preparation_failed-stops :
      (f : Failure) (r r' : Run) (d : Disk × Option Failure)
      → preparation_failed lib diff evidence fails f r d ≡ (r', none)
      → route_workspace_preparation r' ≡ false
  unfolding preparation_failed route_workspace_preparation set_review
  preparation_failed-stops f r r' (disk, some g) h =
      let e : some g ≡ none = ap (λ (p : Run × Option Failure). p.1) h in absurd (ground (arith, e))
  preparation_failed-stops f r r' (disk, none) h =
      sym (ap (λ (p : Run × Option Failure). route_workspace_preparation p.0) h)

  settle_preparation-returned :
      (id : String) (o : Outcome WorkspaceState) (r r' : Run)
      → settle_preparation lib diff evidence fails id o r ≡ (r', none)
      → route_workspace_preparation r' ≡ true
      → (r.state ≡ r'.state) × ((w : WorkspaceState) × (o ≡ returned w))
  unfolding settle_preparation
  settle_preparation-returned id (raised f) r r' h ok =
      let stop : route_workspace_preparation r' ≡ false =
        preparation_failed-stops f r r' (cleanup_run_workspace fails id r.disk) h in
      absurd (ground (arith, ok, stop))
  settle_preparation-returned id (returned w) r r' h ok =
      (ap (λ (p : Run × Option Failure). p.0.state) h, (w, refl))

  -- The workspace is prepared only where the state names one, and the state stays.
  pub prepare-Keeps :
      (r r' : Run)
      → prepare_with lib diff evidence fails r ≡ (r', none)
      → route_workspace_preparation r' ≡ true
      → Keeps r r'
  unfolding prepare_with route_workspace_preparation set_review
  prepare-Keeps r r' h ok = elim (Option-cases (given r.state.workspace_id)) [
    | inl e ↦
        let refused : Run =
          set_review (some review_failed)
            (record r { work = record r.work { workspace_error = some missing_workspace } }) in
        let got : ◌≡◌ {A = Run × Option Failure} (refused, none) (r', none) = ground (arith, e) in
        let stop : route_workspace_preparation r' ≡ false =
          sym (ap (λ (p : Run × Option Failure). route_workspace_preparation p.0) got) in
        absurd (ground (arith, ok, stop))
    | inr (id, e) ↦
        let got : settle_preparation lib diff evidence fails id
              (try_preparation lib diff evidence fails r.state r.work (snapshots_of id r.disk)) r
            ≡ (r', none) =
          ground (arith, e) in
        let (kept, _) =
          settle_preparation-returned id
            (try_preparation lib diff evidence fails r.state r.work (snapshots_of id r.disk)) r r'
            got ok in
        (kept, (id, e))
  ]

-- What the approval is asked for, on the disk where the preparation has run.
pub prepare_workspace_approval_node-fixed :
    (lib : WorkspaceLibrary) (diff : DiffLibrary) (text : EvidenceText) (fails : Operation → Bool)
    (p r : Run)
    → prepare_workspace_approval_node lib diff text fails p ≡ (r, none)
    → route_workspace_preparation r ≡ true
    → (p.state ≡ r.state)
      × ((id : String) × (given p.state.workspace_id ≡ some id)
          × IsApprovable lib diff
              (evidence_on lib text p.disk)
              p.state
              (snapshots_of id p.disk)
              r.work)
unfolding prepare_workspace_approval_node
prepare_workspace_approval_node-fixed lib diff text fails p r h ok =
    let (kept, (id, named)) = prepare-Keeps lib diff (evidence_on lib text p.disk) fails p r h ok in
    let node : Run × Option Failure = prepare_workspace_approval_node lib diff text fails p in
    (
      kept,
      (
        id,
        named,
        subst
            (λ (x : Run × Option Failure).
              IsApprovable lib diff (evidence_on lib text p.disk) p.state (snapshots_of id p.disk)
                x.0.work)
            h
            (prepare_workspace_approval_node-IsApprovable lib diff text fails p id named
              (ap (λ (x : Run × Option Failure). x.1) h)
              (ap (λ (x : Run × Option Failure). route_workspace_preparation x.0) h ∙ ok)),
      ),
    )
