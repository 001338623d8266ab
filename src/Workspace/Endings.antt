-- ===== src/Workspace/Endings.antt =====
-- How the two nodes of the approval end.
use refactor_agent.Common.{
  Bool-cases, Option-cases, contains, String, ◌≡◌, refl, sym, ap, ◌∙◌, ◌⊎◌, inl, inr, Bool, true,
  false, Option, none, some, some-injective, arith,
}
use refactor_agent.Workspace.{
  Tree, Files, Disk, WorkspaceLibrary, Temp, Operation, Failure, differing, iter_snapshot_files,
  unlink_temp, apply_failed, os_error, returned,
}
use refactor_agent.State.{review_success, review_failed}
use refactor_agent.Workspace.Transaction.{Surroundings}
use refactor_agent.Workspace.Compensation.{AtomicApplyError, Applied, partial}
use refactor_agent.Workspace.Apply.{ApplyFailure, given, Result, refused_apply, atomic_apply_failed}
use refactor_agent.Workspace.Approval.{
  Run, set_review, cleanup_run_workspace, cleaned_with, cleanup_workspace_node,
}
use refactor_agent.Workspace.Nodes.{
  Answer, approved_by, snapshots_at, with_source, without_error, reject_changes, accept_changes,
  report_failure, settle_error, settle_applied, settle_result, apply_workspace_changes_node,
}
use refactor_agent.Workspace.Preparation.{file_at}
use refactor_agent.Workspace.Transacted.{SameFiles}
use refactor_agent.Workspace.Refinement.{
  install_final, FinishedAs, AppliedAs, atomic_apply_workspace-AppliedAs, finished_all,
  finished_none, finished_partly, finished_apply, not_started, cleanup_stopped,
}
use refactor_agent.Workspace.Targets.{normalize_snapshot_path}
use refactor_agent.Workspace.Commits.{IsQuiet}

cleanup_run_workspace-source :
    (fails : Operation → Bool) (id : String) (disk : Disk)
    → (cleanup_run_workspace fails id disk).0.source ≡ disk.source
unfolding cleanup_run_workspace
cleanup_run_workspace-source fails id disk = ground arith

cleaned_with-source :
    (x : Disk × Option Failure) (r : Run) → (cleaned_with x r).disk.source ≡ x.0.source
unfolding cleaned_with
cleaned_with-source (disk, none) r = refl
cleaned_with-source (disk, some f) r = refl

cleanup-source :
    (fails : Operation → Bool) (r : Run)
    → (cleanup_workspace_node fails r).disk.source ≡ r.disk.source
unfolding cleanup_workspace_node
cleanup-source fails r = elim (Option-cases (given r.state.workspace_id)) [
  | inl e ↦ rw (cleanup_workspace_node, e) refl
  | inr (id, e) ↦
      rw (cleanup_workspace_node, e)
        (cleaned_with-source (cleanup_run_workspace fails id r.disk) r
          ∙ cleanup_run_workspace-source fails id r.disk)
]

-- How the application ends, for the files `b` of the baseline and `f` of the working copy.
pub data EndsAs (fails : Operation → Bool) (answer : Answer) (b f : Files) (r r' : Run)
    : Type 0 where
  applied_changes :
      approved_by answer ≡ true
      → r'.state.review_status ≡ some review_success
      → r'.work.workspace_applied ≡ true
      → ((k : String) → file_at k r'.disk.source ≡ install_final b f k (file_at k r.disk.source))
      → EndsAs fails answer b f r r'
  left_unchanged :
      r'.state.review_status ≡ some review_failed
      → r'.work.workspace_applied ≡ false
      → SameFiles r.disk.source r'.disk.source
      → EndsAs fails answer b f r r'
  needs_repair :
      (e : AtomicApplyError)
      → r'.state.review_status ≡ some review_failed
      → r'.work.workspace_applied ≡ false
      → r'.work.workspace_rolled_back ≡ false
      → r'.work.workspace_apply_failure ≡ some (atomic_apply_failed e)
      → e.rollback_status ≡ partial
      → EndsAs fails answer b f r r'
  cleanup_refused :
      (a : Applied) (temp : Temp)
      → approved_by answer ≡ true
      → fails (unlink_temp temp) ≡ true
      → r'.state.review_status ≡ some review_failed
      → r'.work.workspace_applied ≡ false
      → r'.work.workspace_rolled_back ≡ false
      → r'.work.workspace_apply_failure ≡ some (refused_apply (os_error (unlink_temp temp)))
      → r'.disk.source ≡ a.tree
      → FinishedAs b f r.disk.source a
      → EndsAs fails answer b f r r'

module _ (lib : WorkspaceLibrary) (out : Surroundings) where
  rejected-EndsAs :
      (answer : Answer) (b f : Files) (r : Run)
      → EndsAs out.fails answer b f r (reject_changes lib out r)
  unfolding reject_changes set_review
  rejected-EndsAs answer b f r =
      left_unchanged refl refl λ k. ap (file_at k) (cleanup-source out.fails r)

  report-source :
      (tree : Tree) (back : Bool) (d : ApplyFailure) (f : Failure) (r : Run)
      → (report_failure lib out tree back d f r).disk.source ≡ tree
  unfolding report_failure set_review
  report-source tree back d f r = cleanup-source out.fails (with_source tree r)

  -- An application that raised before its transaction, or took everything back.
  reported-EndsAs :
      (answer : Answer) (b f : Files) (r : Run) (tree : Tree) (back : Bool) (d : ApplyFailure)
      (g : Failure)
      → SameFiles r.disk.source tree
      → EndsAs out.fails answer b f r (report_failure lib out tree back d g r)
  unfolding set_review
  reported-EndsAs answer b f r tree back d g same =
      left_unchanged (unfold report_failure in refl) (unfold report_failure in refl)
        λ k. ap (file_at k) (report-source tree back d g r) ∙ same k

  accepted-EndsAs :
      (answer : Answer) (b f : Files) (r : Run) (tree : Tree)
      → approved_by answer ≡ true
      → ((k : String) → file_at k tree ≡ install_final b f k (file_at k r.disk.source))
      → EndsAs out.fails answer b f r (accept_changes lib out tree r)
  unfolding accept_changes set_review
  accepted-EndsAs answer b f r tree approved h =
      applied_changes approved refl refl
        λ k. ap (file_at k) (cleanup-source out.fails (without_error tree r)) ∙ h k

  settled_error-EndsAs :
      (answer : Answer) (b f : Files) (r : Run) (o : Option AtomicApplyError) (tree : Tree)
      → (o ≡ none
          → approved_by answer ≡ true
            × ((k : String) → file_at k tree ≡ install_final b f k (file_at k r.disk.source)))
      → ((e : AtomicApplyError)
          → o ≡ some e
          → SameFiles r.disk.source tree
            ⊎ ((e.rollback_status ≡ partial) × (e.rolled_back ≡ false)))
      → EndsAs out.fails answer b f r (settle_error lib out o tree r)
  unfolding settle_error
  settled_error-EndsAs answer b f r none tree fine bad =
      let (approved, h) = fine refl in accepted-EndsAs answer b f r tree approved h
  settled_error-EndsAs answer b f r (some e) tree fine bad = elim (bad e refl) [
    | inl same ↦
        reported-EndsAs answer b f r tree e.rolled_back (atomic_apply_failed e) apply_failed same
    | inr (status, back) ↦
        needs_repair e (unfold report_failure set_review in refl)
          (unfold report_failure set_review in refl) (unfold report_failure set_review in back)
          (unfold report_failure set_review in refl) status
  ]

  finished-EndsAs :
      (answer : Answer) (b f : Files) (r : Run) (a : Applied)
      → approved_by answer ≡ true
      → FinishedAs b f r.disk.source a
      → EndsAs out.fails answer b f r (settle_error lib out a.error a.tree r)
  finished-EndsAs answer b f r a approved x = elim x [
    | finished_all n h ↦
        settled_error-EndsAs answer b f r a.error a.tree (λ _. (approved, h))
          λ y z. absurd (ground arith)
    | finished_none y n same ↦
        settled_error-EndsAs answer b f r a.error a.tree (λ z. absurd (ground arith))
          λ z _. inl same
    | finished_partly y n status back ↦
        settled_error-EndsAs answer b f r a.error a.tree (λ z. absurd (ground arith))
          λ z q.
            let same : y ≡ z = some-injective y z (sym n ∙ q) in
            inr (
              ap (λ (u : AtomicApplyError). u.rollback_status) (sym same) ∙ status,
              ap (λ (u : AtomicApplyError). u.rolled_back) (sym same) ∙ back,
            )
  ]

  refused-EndsAs :
      (answer : Answer) (b f : Files) (r : Run) (a : Applied) (temp : Temp)
      → approved_by answer ≡ true
      → out.fails (unlink_temp temp) ≡ true
      → FinishedAs b f r.disk.source a
      → EndsAs out.fails answer b f r (settle_applied lib out (some temp) a r)
  unfolding settle_applied set_review
  refused-EndsAs answer b f r a temp approved refusal x =
      let g : Failure = os_error (unlink_temp temp) in
      cleanup_refused a temp approved refusal (unfold report_failure in refl)
        (unfold report_failure in refl) (unfold report_failure in refl)
        (unfold report_failure in refl) (report-source a.tree false (refused_apply g) g r) x

  settled-EndsAs :
      (answer : Answer) (b f : Files) (r : Run) (result : Result)
      → approved_by answer ≡ true
      → AppliedAs out.fails b f r.disk.source result
      → EndsAs out.fails answer b f r (settle_result lib out result r)
  unfolding settle_result settle_applied
  settled-EndsAs answer b f r result approved x = elim x [
    | finished_apply a e none_refused h ↦
        rw (e, none_refused) (finished-EndsAs answer b f r a approved h)
    | not_started tree g e same ↦
        rw e (reported-EndsAs answer b f r tree false (refused_apply g) g same)
    | cleanup_stopped a temp e refusal refused h ↦
        rw (e, refusal) (refused-EndsAs answer b f r a temp approved refused h)
  ]

  -- Where nobody else changes the source tree during the call, `apply_workspace_changes_node` ends
  -- in one of four ways, whatever the answer and whatever the operating system refuses. With the
  -- review "success" and `workspace_applied` True the answer approved, and each source file is the
  -- working one if the run changed it and as it was if not. Else the review is "failed" and
  -- `workspace_applied` False, and every source file is as it was; or `workspace_apply_failure`
  -- reports the rollback status "partial" and `workspace_rolled_back` is False; or the failure is
  -- the refused deletion of a temporary file, behind a transaction that has made all changes, left
  -- every source file as it was, or come to a partial rollback. The workspace must be listed, by `b`
  -- and `f`, with its changed paths in canonical form.
  pub apply_workspace_changes_node-EndsAs :
      (answer : Answer) (r : Run) (b f : Files)
      → IsQuiet out
      → (let snapshots = snapshots_at (given r.state.workspace_id) r.disk in
          (iter_snapshot_files lib snapshots.baseline ≡ returned b)
          × (iter_snapshot_files lib snapshots.working ≡ returned f))
      → ((k : String)
          → contains k (differing b f) ≡ true
          → normalize_snapshot_path lib k ≡ returned k)
      → EndsAs out.fails answer b f r (apply_workspace_changes_node lib out answer r)
  unfolding apply_workspace_changes_node
  apply_workspace_changes_node-EndsAs answer r b f q (hb, hf) x =
      elim (Bool-cases (approved_by answer)) [
        | inr e ↦ rw (apply_workspace_changes_node, e) (rejected-EndsAs answer b f r)
        | inl e ↦
            rw (apply_workspace_changes_node, e)
              (settled-EndsAs answer b f r _ e (
                atomic_apply_workspace-AppliedAs lib out q r.state r.work r.disk.source
                  (snapshots_at (given r.state.workspace_id) r.disk) b f hb hf x))
      ]
