-- ===== src/Workspace/Gate.antt =====
-- What has been checked when `_atomic_apply_workspace_locked` starts to plan changes.
use refactor_agent.Common.{Option-cases, String, ◌≡◌, subst, inl, inr, none, some, arith, eq_iff}
use refactor_agent.Dict
use refactor_agent.State.{State}
use refactor_agent.Workspace.{
  Tree, Files, Snapshots, WorkspaceLibrary, Failure, Outcome-cases, returned-injective,
  returned_through, passed, iter_snapshot_files, hash_snapshot, assert_no_protected_changes,
  baseline_tampered, working_changed, returned,
}
use refactor_agent.Workspace.Manifest.{WorkspaceSnapshot, build_workspace_snapshot}
use refactor_agent.Workspace.Apply.{
  WorkspaceState, reviewed_digest, Checks, expect_hashes, check_digest, check_source,
  check_snapshot, check_files, check_snapshots,
}
use refactor_agent.Workspace.Differences.{same_dict-pointwise}

-- A tree that was hashed, and whose files have the recorded hashes.
pub record HasHashes (lib : WorkspaceLibrary) (tree : Tree) (recorded : Files) : Type 0 where
  pub hashes : Files
  pub hashed : hash_snapshot lib tree ≡ returned hashes
  pub same : (k : String) → Dict.get k hashes ≡ Dict.get k recorded

-- The working snapshot is the one that the reviewer tested and the one that was approved.
pub record IsReviewed (lib : WorkspaceLibrary) (s : State) (w : WorkspaceState) (working : Tree)
    : Type 0 where
  pub snapshot : WorkspaceSnapshot
  pub built : build_workspace_snapshot lib working ≡ returned snapshot
  pub reviewed : reviewed_digest s.review_evidence ≡ some snapshot.digest
  pub approved : snapshot.digest ≡ w.final_workspace_snapshot_digest

pub record IsChecked (lib : WorkspaceLibrary) (s : State) (w : WorkspaceState) (source : Tree)
    (snapshots : Snapshots) (checks : Checks) : Type 0 where
  pub baseline_listed : iter_snapshot_files lib snapshots.baseline ≡ returned checks.baseline_files
  pub final_listed : iter_snapshot_files lib snapshots.working ≡ returned checks.final_files
  pub unprotected : assert_no_protected_changes lib checks.baseline_files checks.final_files ≡ none
  pub baseline_intact : HasHashes lib snapshots.baseline w.baseline_file_hashes
  pub working_intact : HasHashes lib snapshots.working w.final_file_hashes
  pub source_intact : HasHashes lib source w.baseline_file_hashes
  pub reviewed : IsReviewed lib s w snapshots.working

module _ (lib : WorkspaceLibrary) where
  expect_hashes-HasHashes :
      (f : Failure) (recorded : Files) (tree : Tree)
      → expect_hashes f recorded (hash_snapshot lib tree) ≡ none
      → HasHashes lib tree recorded
  unfolding expect_hashes
  expect_hashes-HasHashes f recorded tree h = elim (Outcome-cases (hash_snapshot lib tree)) [
    | inl (x, e) ↦ absurd (ground arith)
    | inr (hashes, e) ↦ record {
      hashes = hashes;
      hashed = e;
      same = same_dict-pointwise hashes recorded (ground arith);
    }
  ]

  check_source-HasHashes :
      (w : WorkspaceState) (tree : Tree)
      → check_source lib w (hash_snapshot lib tree) ≡ none
      → HasHashes lib tree w.baseline_file_hashes
  unfolding check_source
  check_source-HasHashes w tree h = elim (Outcome-cases (hash_snapshot lib tree)) [
    | inl (x, e) ↦ absurd (ground arith)
    | inr (hashes, e) ↦ record {
      hashes = hashes;
      hashed = e;
      same = same_dict-pointwise hashes w.baseline_file_hashes (ground arith);
    }
  ]

  check_digest-lem :
      (s : State) (w : WorkspaceState) (current : String)
      → check_digest lib s w current ≡ none
      → (reviewed_digest s.review_evidence ≡ some current)
        × (current ≡ w.final_workspace_snapshot_digest)
  unfolding check_digest
  check_digest-lem s w current h = elim (Option-cases (reviewed_digest s.review_evidence)) [
    | inl e ↦ absurd (ground arith)
    | inr (d, e) ↦ (
      ground (arith, eq_iff current d),
      ground (arith, eq_iff current w.final_workspace_snapshot_digest),
    )
  ]

  check_snapshot-IsReviewed :
      (s : State) (w : WorkspaceState) (tree : Tree)
      → check_snapshot lib s w (build_workspace_snapshot lib tree) ≡ none
      → IsReviewed lib s w tree
  unfolding check_snapshot
  check_snapshot-IsReviewed s w tree h = elim (Outcome-cases (build_workspace_snapshot lib tree)) [
    | inl (x, e) ↦ absurd (ground arith)
    | inr (snapshot, e) ↦
        let (r, a) = check_digest-lem s w snapshot.digest (ground arith) in
        record { snapshot = snapshot; built = e; reviewed = r; approved = a }
  ]

  -- The second half of the checks.
  record FilesChecked (s : State) (w : WorkspaceState) (source working : Tree) (b f : Files)
      (checks : Checks) : Type 0 where
    unprotected : assert_no_protected_changes lib b f ≡ none
    reviewed : IsReviewed lib s w working
    source_intact : HasHashes lib source w.baseline_file_hashes
    same : record { baseline_files = b; final_files = f } ≡ checks

  check_files-FilesChecked :
      (s : State) (w : WorkspaceState) (source working : Tree) (b f : Files) (checks : Checks)
      → check_files lib s w source working b f ≡ returned checks
      → FilesChecked s w source working b f checks
  unfolding check_files
  check_files-FilesChecked s w source working b f checks h =
      let (h1, r1) = passed (assert_no_protected_changes lib b f) _ checks h in
      let (h2, r2) =
        passed (check_snapshot lib s w (build_workspace_snapshot lib working)) _ checks r1 in
      let (h3, r3) = passed (check_source lib w (hash_snapshot lib source)) _ checks r2 in
      record {
        unprotected = h1;
        reviewed = check_snapshot-IsReviewed s w working h2;
        source_intact = check_source-HasHashes w source h3;
        same = returned-injective _ checks r3;
      }

  -- From the checks that passed to what they checked.
  pub check_snapshots-IsChecked :
      (s : State) (w : WorkspaceState) (source : Tree) (snapshots : Snapshots) (checks : Checks)
      → check_snapshots lib s w source snapshots ≡ returned checks
      → IsChecked lib s w source snapshots checks
  unfolding check_snapshots
  check_snapshots-IsChecked s w source snapshots checks h =
      let (h1, r1) =
        passed
          (expect_hashes baseline_tampered w.baseline_file_hashes
            (hash_snapshot lib snapshots.baseline))
          _ checks h in
      let (h2, r2) =
        passed
          (expect_hashes working_changed w.final_file_hashes (hash_snapshot lib snapshots.working))
          _ checks r1 in
      let (b, h3, r3) = returned_through (iter_snapshot_files lib snapshots.baseline) _ checks r2 in
      let (f, h4, r4) = returned_through (iter_snapshot_files lib snapshots.working) _ checks r3 in
      let c = check_files-FilesChecked s w source snapshots.working b f checks r4 in
      subst (IsChecked lib s w source snapshots) c.same record {
        baseline_listed = h3;
        final_listed = h4;
        unprotected = c.unprotected;
        baseline_intact =
            expect_hashes-HasHashes baseline_tampered w.baseline_file_hashes snapshots.baseline h1;
        working_intact =
            expect_hashes-HasHashes working_changed w.final_file_hashes snapshots.working h2;
        source_intact = c.source_intact;
        reviewed = c.reviewed;
      }
