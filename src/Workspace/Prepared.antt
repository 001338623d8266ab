-- ===== src/Workspace/Prepared.antt =====
-- What the preparation of the approval has fixed, when the approval is asked for.
use refactor_agent.Messages.{join_with}
use refactor_agent.Common.{
  ltb, Bool-cases, List-cases, text_length, ◌≤◌, String, ◌≡◌, refl, sym, subst, ◌≢◌, inl, inr, Bool,
  true, false, Option, none, some, List, [], ◌∷◌, arith,
}
use refactor_agent.State.{State}
use refactor_agent.Evidence.{EvidenceLibrary, review_evidence_errors}
use refactor_agent.Workspace.{
  Files, Snapshots, Disk, WorkspaceLibrary, Operation, Failure, Outcome, returned-injective,
  returned_through, passed, differing, iter_snapshot_files, hashes_of, assert_no_protected_changes,
  returned, raised,
}
use refactor_agent.Workspace.Manifest.{WorkspaceSnapshot, build_workspace_snapshot}
use refactor_agent.Workspace.Apply.{WorkspaceState, given}
use refactor_agent.Workspace.Approval.{
  max_aggregate_diff_chars, Run, DiffLibrary, set_review, snapshots_of, cleanup_run_workspace,
  route_workspace_preparation, AggregateDiff, diff_sections, require_changes, bounded_diff,
  diff_of_files, build_aggregate_diff, prepared_work,
}
use refactor_agent.Workspace.Sections.{ShowsAll, diff_sections-ShowsAll}
use refactor_agent.Workspace.Nodes.{
  EvidenceText, evidence_on, preparation_failed, try_preparation, settle_preparation, prepare_with,
  prepare_workspace_approval_node,
}

-- The diff that is shown, of the files `b` and `f`, and the record of what it shows.
pub record IsApprovable (lib : WorkspaceLibrary) (diff : DiffLibrary) (evidence : EvidenceLibrary)
    (s : State) (snapshots : Snapshots) (w : WorkspaceState) : Type 0 where
  pub proven : review_evidence_errors evidence s ≡ []
  pub b : Files
  pub f : Files
  pub baseline_listed : iter_snapshot_files lib snapshots.baseline ≡ returned b
  pub final_listed : iter_snapshot_files lib snapshots.working ≡ returned f
  pub unprotected : assert_no_protected_changes lib b f ≡ none
  pub shows : w.workspace_changed_files ≡ differing b f
  pub shows_some : w.workspace_changed_files ≢ []
  pub lines : List String
  pub joined : w.aggregate_diff ≡ join_with "\n" lines
  pub complete : ShowsAll lib diff b f (differing b f) lines
  pub fits : text_length w.aggregate_diff ≤ max_aggregate_diff_chars
  pub hashed : w.final_file_hashes ≡ hashes_of lib f
  pub snapshot : WorkspaceSnapshot
  pub built : build_workspace_snapshot lib snapshots.working ≡ returned snapshot
  pub fixed : w.final_workspace_snapshot_digest ≡ snapshot.digest

module _ (lib : WorkspaceLibrary) (diff : DiffLibrary) where
  -- A diff that is returned is complete and bounded.
  record IsWhole (b f : Files) (d : AggregateDiff) : Type 0 where
    shows : d.changed_files ≡ differing b f
    shows_some : d.changed_files ≢ []
    fits : text_length d.aggregate_diff ≤ max_aggregate_diff_chars
    hashed : d.final_hashes ≡ hashes_of lib f
    lines : List String
    joined : d.aggregate_diff ≡ join_with "\n" lines
    complete : ShowsAll lib diff b f (differing b f) lines

  require_changes-lem :
      (ks : List String) (d e : AggregateDiff)
      → require_changes lib diff ks d ≡ returned e
      → (d ≡ e) × (ks ≢ [])
  unfolding require_changes
  require_changes-lem [] d e h = cc
  require_changes-lem (k ∷ ks) d e h = (returned-injective d e h, λ x. absurd (ground arith))

  bounded_diff-lem :
      (d e : AggregateDiff)
      → bounded_diff lib diff d ≡ returned e
      → (d ≡ e) × (text_length d.aggregate_diff ≤ max_aggregate_diff_chars) × (d.changed_files ≢ [])
  unfolding bounded_diff
  bounded_diff-lem d e h =
      elim (Bool-cases (ltb max_aggregate_diff_chars (text_length d.aggregate_diff))) [
        | inl t ↦ absurd (ground arith)
        | inr t ↦
            let (same, some_changed) = require_changes-lem d.changed_files d e (ground arith) in
            (same, ground arith, some_changed)
      ]

  diff_of_files-IsWhole :
      (b f : Files) (d : AggregateDiff) → diff_of_files lib diff b f ≡ returned d → IsWhole b f d
  unfolding diff_of_files
  diff_of_files-IsWhole b f d h =
      let (lines, e, h2) = returned_through (diff_sections lib diff b f (differing b f)) _ d h in
      let (same, fits, some_changed) = bounded_diff-lem _ d h2 in
      subst (IsWhole b f) same record {
        shows = refl;
        shows_some = some_changed;
        fits = fits;
        hashed = refl;
        lines = lines;
        joined = refl;
        complete = diff_sections-ShowsAll lib diff b f (differing b f) lines e;
      }

  -- The files that a diff is made of, with the diff.
  record DiffOf (snapshots : Snapshots) (d : AggregateDiff) : Type 0 where
    b : Files
    f : Files
    baseline_listed : iter_snapshot_files lib snapshots.baseline ≡ returned b
    final_listed : iter_snapshot_files lib snapshots.working ≡ returned f
    unprotected : assert_no_protected_changes lib b f ≡ none
    whole : IsWhole b f d

  build_aggregate_diff-DiffOf :
      (snapshots : Snapshots) (d : AggregateDiff)
      → build_aggregate_diff lib diff snapshots ≡ returned d
      → DiffOf snapshots d
  unfolding build_aggregate_diff
  build_aggregate_diff-DiffOf snapshots d h =
      let (b, eb, h2) = returned_through (iter_snapshot_files lib snapshots.baseline) _ d h in
      let (f, ef, h3) = returned_through (iter_snapshot_files lib snapshots.working) _ d h2 in
      let (free, h4) = passed (assert_no_protected_changes lib b f) _ d h3 in
      record {
        b = b;
        f = f;
        baseline_listed = eb;
        final_listed = ef;
        unprotected = free;
        whole = diff_of_files-IsWhole b f d h4;
      }

  prepared_work-IsApprovable :
      (evidence : EvidenceLibrary) (s : State) (w w' : WorkspaceState) (snapshots : Snapshots)
      → review_evidence_errors evidence s ≡ []
      → prepared_work lib diff w snapshots ≡ returned w'
      → IsApprovable lib diff evidence s snapshots w'
  unfolding prepared_work
  prepared_work-IsApprovable evidence s w w' snapshots proven h =
      let (d, ed, h2) = returned_through (build_aggregate_diff lib diff snapshots) _ w' h in
      let (snapshot, es, h3) =
        returned_through (build_workspace_snapshot lib snapshots.working) _ w' h2 in
      let c = build_aggregate_diff-DiffOf snapshots d ed in
      subst (IsApprovable lib diff evidence s snapshots) (returned-injective _ w' h3) record {
        proven = proven;
        b = c.b;
        f = c.f;
        baseline_listed = c.baseline_listed;
        final_listed = c.final_listed;
        unprotected = c.unprotected;
        shows = c.whole.shows;
        shows_some = c.whole.shows_some;
        fits = c.whole.fits;
        hashed = c.whole.hashed;
        lines = c.whole.lines;
        joined = c.whole.joined;
        complete = c.whole.complete;
        snapshot = snapshot;
        built = es;
        fixed = refl;
      }

  preparation_failed-refused :
      (evidence : EvidenceLibrary) (fails : Operation → Bool) (f : Failure) (r : Run)
      (x : Disk × Option Failure)
      → (preparation_failed lib diff evidence fails f r x).1 ≡ none
      → route_workspace_preparation (preparation_failed lib diff evidence fails f r x).0 ≡ false
  unfolding preparation_failed route_workspace_preparation set_review
  preparation_failed-refused evidence fails f r (disk, none) h = refl
  preparation_failed-refused evidence fails f r (disk, some g) h = cc

  try_preparation-IsApprovable :
      (evidence : EvidenceLibrary) (fails : Operation → Bool) (s : State) (w w' : WorkspaceState)
      (snapshots : Snapshots)
      → try_preparation lib diff evidence fails s w snapshots ≡ returned w'
      → IsApprovable lib diff evidence s snapshots w'
  unfolding try_preparation
  try_preparation-IsApprovable evidence fails s w w' snapshots h =
      elim (List-cases (review_evidence_errors evidence s)) [
        | inl e ↦
            prepared_work-IsApprovable evidence s w w' snapshots e (rw (try_preparation, e) at h)
        | inr (x, xs, e) ↦ absurd (ground arith)
      ]

  node_eq :
      (evidence : EvidenceLibrary) (fails : Operation → Bool) (r : Run) (id : String)
      → given r.state.workspace_id ≡ some id
      → prepare_with lib diff evidence fails r
        ≡ settle_preparation lib diff evidence fails id
            (try_preparation lib diff evidence fails r.state r.work (snapshots_of id r.disk))
            r
  unfolding prepare_with
  node_eq evidence fails r id g = rw (prepare_with, g) refl

  settle_preparation-IsApprovable :
      (evidence : EvidenceLibrary) (fails : Operation → Bool) (id : String)
      (o : Outcome WorkspaceState) (r : Run)
      → try_preparation lib diff evidence fails r.state r.work (snapshots_of id r.disk) ≡ o
      → (settle_preparation lib diff evidence fails id o r).1 ≡ none
      → route_workspace_preparation (settle_preparation lib diff evidence fails id o r).0 ≡ true
      → IsApprovable lib diff evidence r.state
          (snapshots_of id r.disk)
          (settle_preparation lib diff evidence fails id o r).0.work
  unfolding settle_preparation
  settle_preparation-IsApprovable evidence fails id (returned w) r e h route =
      try_preparation-IsApprovable evidence fails r.state r.work w (snapshots_of id r.disk) e
  settle_preparation-IsApprovable evidence fails id (raised f) r e h route =
      let refused =
        preparation_failed-refused evidence fails f r (cleanup_run_workspace fails id r.disk) h in
      absurd (ground arith)

  prepare_with-IsApprovable :
      (evidence : EvidenceLibrary) (fails : Operation → Bool) (r : Run) (id : String)
      → given r.state.workspace_id ≡ some id
      → (prepare_with lib diff evidence fails r).1 ≡ none
      → route_workspace_preparation (prepare_with lib diff evidence fails r).0 ≡ true
      → IsApprovable lib diff evidence r.state
          (snapshots_of id r.disk)
          (prepare_with lib diff evidence fails r).0.work
  prepare_with-IsApprovable evidence fails r id g =
      subst
        (λ (p : Run × Option Failure).
          p.1 ≡ none
          → route_workspace_preparation p.0 ≡ true
          → IsApprovable lib diff evidence r.state (snapshots_of id r.disk) p.0.work)
        (sym (node_eq evidence fails r id g))
        (settle_preparation-IsApprovable evidence fails id _ r refl)

  -- Where `prepare_workspace_approval_node` returns and the edge behind it leads to the
  -- application, the evidence of the review holds on the disk as it is then, no protected file is
  -- changed, the recorded files are exactly those that differ and at least one, the diff shows each
  -- of them in a section of its own that is not empty and has at most 500,000 characters, and the
  -- recorded hashes and digest are those of the working snapshot. The state names a workspace.
  pub prepare_workspace_approval_node-IsApprovable :
      (text : EvidenceText) (fails : Operation → Bool) (r : Run) (id : String)
      → given r.state.workspace_id ≡ some id
      → (prepare_workspace_approval_node lib diff text fails r).1 ≡ none
      → route_workspace_preparation (prepare_workspace_approval_node lib diff text fails r).0 ≡ true
      → IsApprovable lib diff
          (evidence_on lib text r.disk)
          r.state
          (snapshots_of id r.disk)
          (prepare_workspace_approval_node lib diff text fails r).0.work
  unfolding prepare_workspace_approval_node
  prepare_workspace_approval_node-IsApprovable text fails r id g =
      prepare_with-IsApprovable (evidence_on lib text r.disk) fails r id g
