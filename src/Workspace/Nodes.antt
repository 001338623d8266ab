-- ===== src/Workspace/Nodes.antt =====
-- backend/agent/workspace.py, `prepare_workspace_approval_node` and `apply_workspace_changes_node`.
use refactor_agent.Common.{
  if◌then◌else◌, ℤ, String, ◌⊎◌, inl, inr, Bool, true, false, not, Option, none, some, List, [],
  ◌∷◌,
}
use refactor_agent.Workspace.Manifest.{WorkspaceSnapshot, build_workspace_snapshot}
use refactor_agent.State.{State, review_success, review_failed}
use refactor_agent.Evidence.{DigestEntry, EvidenceLibrary, review_evidence_errors}
use refactor_agent.Workspace.{
  Tree, Snapshots, Disk, WorkspaceLibrary, Temp, Operation, Failure, Outcome,
  workspace_changed_paths, unlink_temp, missing_workspace, user_rejected, apply_failed,
  evidence_invalid, os_error, returned, raised,
}
use refactor_agent.Workspace.Transaction.{Surroundings}
use refactor_agent.Workspace.Apply.{
  ApplyFailure, WorkspaceState, given, Result, atomic_apply_workspace, refused_apply,
  atomic_apply_failed,
}
use refactor_agent.Workspace.Approval.{
  Run, DiffLibrary, set_review, snapshots_of, cleanup_run_workspace, cleanup_workspace_node,
  prepared_work,
}
use refactor_agent.Workspace.Compensation.{AtomicApplyError, Applied}

-- What the user's answer can be: a Boolean, a dictionary with its `approved`, or something else.
pub data Answer : Type 0 where
  plain_answer dictionary_answer : Bool → Answer
  other_answer : Answer

pub approved_by : Answer → Bool
approved_by (plain_answer b) = b
approved_by (dictionary_answer b) = b
approved_by other_answer = false

-- `json.dumps`, decimal digits and the text of an exception, for the evidence check.
pub record EvidenceText : Type 0 where
  pub dumps : List DigestEntry → String
  pub decimal : ℤ → String
  pub describe : Failure → String

-- `build_workspace_snapshot(id)["digest"]` of the working copy, and `workspace_changed_paths(id)`, as
-- they come out on this disk.
unfoldable digest_of : EvidenceText → Outcome WorkspaceSnapshot → String ⊎ String
digest_of text (raised f) = inr (text.describe f)
digest_of text (returned snapshot) = inl snapshot.digest

pub paths_of : Outcome (List String) → Option (List String)
paths_of (raised f) = none
paths_of (returned paths) = some paths

-- What the evidence check reads of the workspaces is what this disk holds.
unfoldable pub evidence_on : WorkspaceLibrary → EvidenceText → Disk → EvidenceLibrary
unfolding digest_of paths_of snapshots_of build_workspace_snapshot workspace_changed_paths
evidence_on lib text disk = record {
  dumps = text.dumps;
  sha256 = lib.sha256;
  decimal = text.decimal;
  snapshot_digest =
      λ id. digest_of text (build_workspace_snapshot lib (snapshots_of id disk).working);
  workspace_changed_paths = λ id. paths_of (workspace_changed_paths lib (snapshots_of id disk));
}

module _ (lib : WorkspaceLibrary) (diff : DiffLibrary) (evidence : EvidenceLibrary)
    (fails : Operation → Bool) where
  -- The `except` of `prepare_workspace_approval_node`; the clean-up may raise.
  unfoldable pub preparation_failed : Failure → Run → Disk × Option Failure → Run × Option Failure
  unfolding set_review
  preparation_failed f r (disk, some g) = (record r { disk = disk }, some g)
  preparation_failed f r (disk, none) = (
    set_review (some review_failed) (record r {
      work = record r.work { workspace_error = some f; workspace_cleaned = true };
      disk = disk;
    }),
    none,
  )

  unfoldable pub try_preparation : State → WorkspaceState → Snapshots → Outcome WorkspaceState
  unfolding prepared_work
  try_preparation s w snapshots = elim (review_evidence_errors evidence s) [
    | e ∷ es ↦ raised (evidence_invalid (e ∷ es))
    | [] ↦ prepared_work lib diff w snapshots
  ]

  unfoldable pub settle_preparation : String → Outcome WorkspaceState → Run → Run × Option Failure
  unfolding preparation_failed cleanup_run_workspace
  settle_preparation id (raised f) r =
      preparation_failed f r (cleanup_run_workspace fails id r.disk)
  settle_preparation id (returned w) r = (record r { work = w }, none)

  -- `prepare_workspace_approval_node`, with what the evidence check reads.
  unfoldable pub prepare_with : Run → Run × Option Failure
  unfolding given try_preparation settle_preparation snapshots_of set_review
  prepare_with r = elim (given r.state.workspace_id) [
    | none ↦ (
      set_review (some review_failed)
          (record r { work = record r.work { workspace_error = some missing_workspace } }),
      none,
    )
    | some id ↦ settle_preparation id (try_preparation r.state r.work (snapshots_of id r.disk)) r
  ]

-- The evidence is checked once more, on the disk as it is now.
unfoldable pub prepare_workspace_approval_node :
    WorkspaceLibrary → DiffLibrary → EvidenceText → (Operation → Bool) → Run → Run × Option Failure
unfolding prepare_with evidence_on
prepare_workspace_approval_node lib diff text fails r =
    prepare_with lib diff (evidence_on lib text r.disk) fails r

unfoldable pub snapshots_at : Option String → Disk → Snapshots
unfolding snapshots_of
snapshots_at none disk = record { baseline = []; working = [] }
snapshots_at (some id) disk = snapshots_of id disk

-- The source tree is now this one.
abbrev pub with_source : Tree → Run → Run
with_source tree r = record r { disk = record r.disk { source = tree } }

abbrev pub without_error : Tree → Run → Run
without_error tree r = record r {
  work = record r.work { workspace_error = none };
  disk = record r.disk { source = tree };
}

module _ (lib : WorkspaceLibrary) (out : Surroundings) where
  open out use {fails}

  -- The answer was no. `workspace_error` is set behind the clean-up's.
  unfoldable pub reject_changes : Run → Run
  unfolding cleanup_workspace_node set_review
  reject_changes r =
      let c = cleanup_workspace_node fails r in
      set_review (some review_failed) (record c {
        work = record c.work {
          workspace_approved = false;
          workspace_applied = false;
          workspace_rolled_back = false;
          workspace_error = some user_rejected;
          workspace_apply_failure = none;
        };
      })

  -- The changes stand in the source tree. A clean-up that fails leaves its error.
  unfoldable pub accept_changes : Tree → Run → Run
  unfolding cleanup_workspace_node set_review
  accept_changes tree r =
      let c = cleanup_workspace_node fails (without_error tree r) in
      set_review (some review_success) (record c {
        work = record c.work {
          workspace_approved = true;
          workspace_applied = true;
          workspace_rolled_back = false;
          workspace_apply_failure = none;
        };
      })

  -- An exception: `rolled_back` of AtomicApplyError, and its detail.
  unfoldable pub report_failure : Tree → Bool → ApplyFailure → Failure → Run → Run
  unfolding cleanup_workspace_node set_review
  report_failure tree rolled_back detail f r =
      let c = cleanup_workspace_node fails (with_source tree r) in
      set_review (some review_failed) (record c {
        work = record c.work {
          workspace_approved = true;
          workspace_applied = false;
          workspace_rolled_back = rolled_back;
          workspace_error = some f;
          workspace_apply_failure = some detail;
        };
      })

  unfoldable pub settle_error : Option AtomicApplyError → Tree → Run → Run
  unfolding accept_changes report_failure
  settle_error none tree r = accept_changes tree r
  settle_error (some e) tree r =
      report_failure tree e.rolled_back (atomic_apply_failed e) apply_failed r

  -- `finally` may have raised in place of the error.
  unfoldable pub settle_applied : Option Temp → Applied → Run → Run
  unfolding settle_error report_failure
  settle_applied none a r = settle_error a.error a.tree r
  settle_applied (some temp) a r =
      let f : Failure = os_error (unlink_temp temp) in
      report_failure a.tree false (refused_apply f) f r

  unfoldable pub settle_result : Result → Run → Run
  unfolding settle_applied report_failure
  settle_result (inr (tree, f)) r = report_failure tree false (refused_apply f) f r
  settle_result (inl a) r = settle_applied a.refused_unlink a r

  -- `apply_workspace_changes_node`, resumed with an answer. The refresh of the code index, whose
  -- exceptions are dropped, changes nothing here.
  unfoldable pub apply_workspace_changes_node : Answer → Run → Run
  unfolding approved_by reject_changes settle_result atomic_apply_workspace snapshots_at given
  apply_workspace_changes_node answer r =
      if not (approved_by answer)
      then reject_changes r
      else settle_result
          (atomic_apply_workspace lib out r.state r.work r.disk.source
            (snapshots_at (given r.state.workspace_id) r.disk))
          r
