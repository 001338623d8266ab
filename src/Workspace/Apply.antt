-- ===== src/Workspace/Apply.antt =====
-- backend/agent/workspace.py, `_atomic_apply_workspace_locked`: the checks before the transaction.
use refactor_agent.Common.{
  if◌then◌else◌, contains, String, ◌⊎◌, inl, inr, Bool, not, Option, none, some, List, [], ◌∷◌,
  ◌==◌,
}
use refactor_agent.Dict
use refactor_agent.State.{ReviewEvidence, State}
use refactor_agent.Workspace.{
  Tree, Files, Snapshots, WorkspaceLibrary, Operation, Failure, Outcome, differing, same_dict,
  iter_snapshot_files, hash_snapshot, assert_no_protected_changes, full_preflight, preflight,
  missing_workspace, case_conflict, baseline_tampered, working_changed, not_reviewed, not_approved,
  baseline_conflict, hook_error, returned, raised,
}
use refactor_agent.Workspace.Manifest.{WorkspaceSnapshot, build_workspace_snapshot}
use refactor_agent.Workspace.Targets.{
  expected_baseline_state, Change, normalize_snapshot_path, apply_target,
  assert_target_matches_baseline,
}
use refactor_agent.Workspace.Transaction.{Surroundings, after_preflight}
use refactor_agent.Workspace.Compensation.{AtomicApplyError, Applied, transact}

-- `state["workspace_apply_failure"]`, before it is made public.
pub data ApplyFailure : Type 0 where
  refused_apply : Failure → ApplyFailure
  atomic_apply_failed : AtomicApplyError → ApplyFailure

-- The part of the graph's state that belongs to the workspace.
pub record WorkspaceState : Type 0 where
  pub baseline_file_hashes : Files
  pub final_file_hashes : Files
  pub final_workspace_snapshot_digest : String
  pub aggregate_diff : String
  pub workspace_changed_files : List String
  pub workspace_approved : Bool
  pub workspace_applied : Bool
  pub workspace_rolled_back : Bool
  pub workspace_cleaned : Bool
  pub workspace_error : Option Failure
  pub workspace_apply_failure : Option ApplyFailure

-- `workspace_id`, where it is neither missing nor empty.
unfoldable pub given : Option String → Option String
given none = none
given (some id) = if id == "" then none else some id

-- `review_evidence.get("workspace_snapshot_digest")`
pub reviewed_digest : Option ReviewEvidence → Option String
reviewed_digest none = none
reviewed_digest (some evidence) = given (some evidence.workspace_snapshot_digest)

-- What the checks have read.
pub record Checks : Type 0 where
  pub baseline_files : Files
  pub final_files : Files

-- The files that are hashed must have the recorded hashes.
unfoldable pub expect_hashes : Failure → Files → Outcome Files → Option Failure
unfolding same_dict
expect_hashes f recorded (raised e) = some e
expect_hashes f recorded (returned hashes) = if same_dict hashes recorded then none else some f

-- The first file that is not as the run found it.
unfoldable first_conflict : List String → String
first_conflict [] = "CodeSmells"
first_conflict (k ∷ ks) = k

module _ (lib : WorkspaceLibrary) where
  -- The digest of the working snapshot is the reviewer's and the approved one.
  unfoldable pub check_digest : State → WorkspaceState → String → Option Failure
  unfolding reviewed_digest given
  check_digest s w current = elim (reviewed_digest s.review_evidence) [
    | none ↦ some not_reviewed
    | some digest ↦
        if not (current == digest)
        then some not_reviewed
        else if not (current == w.final_workspace_snapshot_digest)
        then some not_approved
        else none
  ]

  unfoldable pub check_source : WorkspaceState → Outcome Files → Option Failure
  unfolding same_dict first_conflict differing
  check_source w (raised e) = some e
  check_source w (returned hashes) =
      if same_dict hashes w.baseline_file_hashes
      then none
      else some (
          baseline_conflict (first_conflict (differing hashes w.baseline_file_hashes))
            full_preflight)

  unfoldable pub check_snapshot :
      State → WorkspaceState → Outcome WorkspaceSnapshot → Option Failure
  unfolding check_digest
  check_snapshot s w (raised e) = some e
  check_snapshot s w (returned snapshot) = check_digest s w snapshot.digest

  -- From the protected files to the real source tree.
  unfoldable pub check_files : State → WorkspaceState → Tree → Tree → Files → Files → Outcome Checks
  unfolding assert_no_protected_changes check_snapshot build_workspace_snapshot check_source
      hash_snapshot
  check_files s w source working baseline_files final_files =
      elim (assert_no_protected_changes lib baseline_files final_files) [
        | some f ↦ raised f
        | none ↦ elim (check_snapshot s w (build_workspace_snapshot lib working)) [
          | some f ↦ raised f
          | none ↦ elim (check_source w (hash_snapshot lib source)) [
            | some f ↦ raised f
            | none ↦
                returned (record { baseline_files = baseline_files; final_files = final_files })
          ]
        ]
      ]

  -- Everything that is checked of the snapshots and of the real tree as a whole.
  unfoldable pub check_snapshots : State → WorkspaceState → Tree → Snapshots → Outcome Checks
  unfolding expect_hashes hash_snapshot check_files iter_snapshot_files
  check_snapshots s w source snapshots =
      elim (expect_hashes baseline_tampered w.baseline_file_hashes
        (hash_snapshot lib snapshots.baseline)) [
          | some f ↦ raised f
          | none ↦
              elim (expect_hashes working_changed w.final_file_hashes
                (hash_snapshot lib snapshots.working)) [
                  | some f ↦ raised f
                  | none ↦ elim (iter_snapshot_files lib snapshots.baseline) [
                    | raised f ↦ raised f
                    | returned baseline_files ↦ elim (iter_snapshot_files lib snapshots.working) [
                      | raised f ↦ raised f
                      | returned final_files ↦
                          check_files s w source snapshots.working baseline_files final_files
                    ]
                  ]
                ]
        ]

  module _ (fails : Operation → Bool) (recorded final_files : Files) (source : Tree) where
    -- `targets[relative]`, `expected_states[relative]` and `final_files.get(relative)`.
    unfoldable pub change_of : String → String → Change
    unfolding expected_baseline_state
    change_of relative target = record {
      relative = relative;
      target = target;
      expected = expected_baseline_state (Dict.get relative recorded);
      final = Dict.get relative final_files;
    }

    -- The change of one file, behind the test of its identity.
    unfoldable pub plan_target : String → Outcome Change
    unfolding apply_target change_of assert_target_matches_baseline
    plan_target relative = elim (apply_target lib relative) [
      | raised f ↦ raised f
      | returned target ↦
          elim (assert_target_matches_baseline lib fails preflight source
            (change_of relative target)) [
              | some f ↦ raised f
              | none ↦ returned (change_of relative target)
            ]
    ]

    -- `identities`, with the new one.
    unfoldable pub add_identity : List String → String → Outcome (List String)
    unfolding normalize_snapshot_path
    add_identity identities relative = elim (normalize_snapshot_path lib relative) [
      | raised f ↦ raised f
      | returned normalized ↦
          if contains (lib.casefold normalized) identities
          then raised (case_conflict relative)
          else returned (lib.casefold normalized ∷ identities)
    ]

    -- `for relative in changed`, before anything is written.
    unfoldable pub plan_changes : List String → List String → Outcome (List Change)
    unfolding plan_target add_identity
    plan_changes identities [] = returned []
    plan_changes identities (k ∷ ks) = elim (add_identity identities k) [
      | raised f ↦ raised f
      | returned identities' ↦ elim (plan_target k) [
        | raised f ↦ raised f
        | returned c ↦ elim (plan_changes identities' ks) [
          | raised f ↦ raised f
          | returned cs ↦ returned (c ∷ cs)
        ]
      ]
    ]

-- The tree, what remains for a recovery, and the failure, if it failed.
abbrev pub Result : Type 0
Result = Applied ⊎ (Tree × Failure)

module _ (lib : WorkspaceLibrary) (out : Surroundings) where
  open out use {hook, hook_raises, fails}

  -- The hook before the `try` may raise; then nothing has been prepared.
  unfoldable pub apply_changes : List Change → Tree → Result
  unfolding transact
  apply_changes cs source =
      let tree = hook after_preflight source in
      if hook_raises after_preflight source
      then inr (tree, hook_error)
      else inl (transact lib out cs tree)

  unfoldable pub apply_checked : WorkspaceState → Tree → Checks → Result
  unfolding plan_changes differing apply_changes
  apply_checked w source checks =
      elim (plan_changes lib fails w.baseline_file_hashes checks.final_files source []
        (differing checks.baseline_files checks.final_files)) [
          | raised f ↦ inr (source, f)
          | returned cs ↦ apply_changes cs source
        ]

  -- `_atomic_apply_workspace_locked`, of the workspace that the state names.
  unfoldable pub atomic_apply_workspace : State → WorkspaceState → Tree → Snapshots → Result
  unfolding given check_snapshots apply_checked
  atomic_apply_workspace s w source snapshots = elim (given s.workspace_id) [
    | none ↦ inr (source, missing_workspace)
    | some id ↦ elim (check_snapshots lib s w source snapshots) [
      | raised f ↦ inr (source, f)
      | returned checks ↦ apply_checked w source checks
    ]
  ]
