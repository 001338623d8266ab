-- ===== src/Examples/Workspace.antt =====
-- One file is changed in an isolated workspace and applied to the source tree
-- (backend/agent/workspace.py).
use Prim.Native.Char.{code}
use Prim.Native.String.{◌++◌ as text_append}
use refactor_agent.Common.{
  eqb, if◌then◌else◌, Bool-cases, pos, length, select, any_of, contains, distinct, text_length,
  sorted, ◌≤◌, String, ◌≡◌, refl, subst, ◌↔◌, inl, inr, true, false, Option, none, some, List, [],
  ◌∷◌, arith, ◌==◌, eq_iff,
}
use refactor_agent.Dict
use refactor_agent.State.{TestRunRecord, State}
use refactor_agent.Messages.{join_with, last?}
use refactor_agent.Evidence.{review_evidence_errors}
use refactor_agent.Paths.{PathLibrary, is_protected_path}
use refactor_agent.Workspace.{
  Tree, Files, Snapshots, WorkspaceLibrary, differing, iter_snapshot_files, workspace_changed_paths,
  regular, directory, unlink_temp, hook_error, returned,
}
use refactor_agent.Workspace.Transaction.{
  Surroundings, Transaction, parents, prepare_one, commit_one, after_replace,
}
use refactor_agent.Workspace.Apply.{WorkspaceState, given, Checks, Result, atomic_apply_workspace}
use refactor_agent.Workspace.Preparation.{file_at}
use refactor_agent.Workspace.Prepared.{IsApprovable, prepare_workspace_approval_node-IsApprovable}
use refactor_agent.Workspace.Creation.Copies.{IsNew, create_run_workspace-IsNew}
use refactor_agent.Workspace.Creation.{create_run_workspace}
use refactor_agent.Workspace.Reports.{
  FailureDetail, PublicFailure, guidance_of, is_safe, public_workspace_apply_failure, IsSafePath,
  IsRecoveryId, public_workspace_apply_failure-safe,
}
use refactor_agent.Examples.Reviewing.{passing, reviewed}
use refactor_agent.Examples.Plan.{first_state}
use refactor_agent.Workspace.Targets.{same_state, Change, normalize_snapshot_path, file}
use refactor_agent.Workspace.Compensation.{
  written_state, rollback_one, rollback, start_rollback, error_of, Applied, partial,
}
use refactor_agent.Workspace.Approval.{Run, DiffLibrary, snapshots_of, route_workspace_preparation}
use refactor_agent.Workspace.Nodes.{
  EvidenceText, evidence_on, prepare_workspace_approval_node, snapshots_at, settle_result,
  apply_workspace_changes_node, plain_answer,
}
use refactor_agent.Workspace.Refinement.{AppliedAs, atomic_apply_workspace-AppliedAs}
use refactor_agent.Workspace.Foreign.{rollback-keeps_foreign}
use refactor_agent.Workspace.Guards.{
  ListsChanges, workspace_changed_paths-exact, atomic_apply_workspace-IsChecked,
}
use refactor_agent.Workspace.Endings.{EndsAs, apply_workspace_changes_node-EndsAs}
use refactor_agent.Workspace.Gate.{IsChecked}

-- The parts of a text between slashes.
split_at : String → String → List String
split_at part String.[] = part ∷ []
split_at part (String.◌∷◌ c s) =
    let rest = split_at "" s in
    let longer = split_at (text_append part (String.◌∷◌ c String.[])) s in
    if eqb (code c) b'/' then part ∷ rest else longer

unfoldable pub split : String → List String
unfolding split_at
split s = split_at "" s

abbrev same : String → String
same s = s

abbrev paths : PathLibrary
paths = record {
  resolve = split;
  is_absolute = λ s. false;
  strip = same;
  casefold = same;
  project_root = [];
  refactor_root = "CodeSmells" ∷ [];
}

abbrev pub lib : WorkspaceLibrary
lib = record {
  sha256 = same;
  parts = split;
  as_posix = same;
  is_absolute = λ s. false;
  suffix = λ s. "";
  name = same;
  casefold = same;
  abspath = split;
  byte_length = text_length;
  dumps = λ files. "listed";
  paths = paths;
}

abbrev tree_with : String → Tree
tree_with bytes = ("CodeSmells", directory) ∷ ("CodeSmells/a.py", regular bytes) ∷ []

abbrev files_with : String → Files
files_with bytes = ("CodeSmells/a.py", bytes) ∷ []

abbrev snapshots : Snapshots
snapshots = record { baseline = tree_with "old"; working = tree_with "new" }

abbrev pub calm : Surroundings
calm = record { hook = λ m tree. tree; hook_raises = λ m tree. false; fails = λ o. false }

-- The hook raises once the file has been replaced.
abbrev stormy : Surroundings
stormy = record calm { hook_raises = λ m tree. elim m [ after_replace k ↦ true | _ ↦ false ] }

abbrev reviewed_state : State
reviewed_state = record first_state {
  workspace_id = some "w1";
  review_evidence = some record {
    changed_files = "CodeSmells/a.py" ∷ [];
    change_set_digest = "c";
    workspace_snapshot_digest = "listed";
    test_suite = "all";
    test_success = true;
    test_exit_code = pos 0;
  };
}

abbrev approved_work : WorkspaceState
approved_work = record {
  baseline_file_hashes = files_with "old";
  final_file_hashes = files_with "new";
  final_workspace_snapshot_digest = "listed";
  aggregate_diff = "";
  workspace_changed_files = "CodeSmells/a.py" ∷ [];
  workspace_approved = false;
  workspace_applied = false;
  workspace_rolled_back = false;
  workspace_cleaned = false;
  workspace_error = none;
  workspace_apply_failure = none;
}

abbrev run : Run
run = record {
  state = reviewed_state;
  work = approved_work;
  disk = record { source = tree_with "old"; workspaces = ("w1", snapshots) ∷ [] };
}

abbrev after_apply : Surroundings → Result
after_apply out =
    atomic_apply_workspace lib out reviewed_state approved_work (tree_with "old") snapshots

listed : (bytes : String) → iter_snapshot_files lib (tree_with bytes) ≡ returned (files_with bytes)
unfolding iter_snapshot_files Dict.get any_of split
listed bytes = refl

abbrev source_after : Result → Option String
unfolding file_at
source_after (inr (tree, f)) = none
source_after (inl a) = file_at "CodeSmells/a.py" a.tree

-- The file is replaced, and put back where the hook raises.
installs : source_after (after_apply calm) ≡ some "new"
unfolding atomic_apply_workspace source_after Dict.get Dict.put Dict.pop contains any_of select
    distinct sorted split is_protected_path join_with prepare_one parents commit_one
installs = refl

restores : source_after (after_apply stormy) ≡ some "old"
unfolding atomic_apply_workspace source_after Dict.get Dict.put Dict.pop contains any_of select
    distinct sorted split is_protected_path join_with prepare_one parents commit_one rollback_one
restores = refl

-- The backup cannot be deleted: the file has been replaced, and the node reports a failure.
abbrev stuck : Surroundings
stuck = record calm { fails = λ o. elim o [ unlink_temp temp ↦ true | _ ↦ false ] }

keeps_new_file : source_after (after_apply stuck) ≡ some "new"
unfolding atomic_apply_workspace source_after Dict.get Dict.put Dict.pop contains any_of select
    distinct sorted split is_protected_path join_with prepare_one parents commit_one
keeps_new_file = refl

reports_failure : (settle_result lib stuck (after_apply stuck) run).work.workspace_applied ≡ false
unfolding atomic_apply_workspace source_after Dict.get Dict.put Dict.pop contains any_of select
    distinct sorted split is_protected_path join_with prepare_one parents commit_one settle_result
reports_failure = refl

one_change : differing (files_with "old") (files_with "new") ≡ "CodeSmells/a.py" ∷ []
unfolding differing Dict.get contains distinct select sorted
one_change = refl

canonical :
    (k : String)
    → contains k (differing (files_with "old") (files_with "new")) ≡ true
    → normalize_snapshot_path lib k ≡ returned k
unfolding normalize_snapshot_path contains split
canonical k m =
    let listed_once : contains k ("CodeSmells/a.py" ∷ []) ≡ true = rw one_change at m in
    elim (Bool-cases ("CodeSmells/a.py" == k)) [
      | inl e ↦
          subst (λ j. normalize_snapshot_path lib j ≡ returned j) ((eq_iff "CodeSmells/a.py" k).0 e)
            refl
      | inr e ↦ absurd (ground arith)
    ]

atomic_apply_workspace-AppliedAs_example :
    AppliedAs stormy.fails
      (files_with "old")
      (files_with "new")
      (tree_with "old")
      (after_apply stormy)
atomic_apply_workspace-AppliedAs_example =
    atomic_apply_workspace-AppliedAs lib stormy (λ m tree. refl) reviewed_state approved_work
      (tree_with "old") snapshots (files_with "old") (files_with "new") (listed "old")
      (listed "new") canonical

abbrev applied : Applied
applied = record { tree = tree_with "new"; recovery = []; error = none; refused_unlink = none }

atomic_apply_workspace-IsChecked_example :
    (checks : Checks) × IsChecked lib reviewed_state approved_work
      (tree_with "old")
      snapshots
      checks
unfolding atomic_apply_workspace Dict.get Dict.put Dict.pop contains any_of select distinct sorted
    split is_protected_path join_with prepare_one parents commit_one
atomic_apply_workspace-IsChecked_example =
    atomic_apply_workspace-IsChecked lib calm reviewed_state approved_work (tree_with "old")
      snapshots applied refl

workspace_changed_paths-exact_example :
    ListsChanges lib (files_with "old") (files_with "new") ("CodeSmells/a.py" ∷ [])
unfolding workspace_changed_paths Dict.get any_of select contains distinct sorted split
    is_protected_path join_with
workspace_changed_paths-exact_example =
    workspace_changed_paths-exact lib snapshots (files_with "old") (files_with "new")
      ("CodeSmells/a.py" ∷ []) (listed "old") (listed "new") refl

-- The transaction has written "new", and somebody else then wrote "theirs".
abbrev change : Change
change = record {
  relative = "CodeSmells/a.py";
  target = "CodeSmells/a.py";
  expected = file "old";
  final = some "new";
}

abbrev overwritten : Transaction
overwritten = record {
  tree = tree_with "theirs";
  prepared = [];
  backups = files_with "old";
  created_dirs = [];
  applied = change ∷ [];
}

rollback-keeps_foreign_example :
    let r = rollback lib calm (change ∷ []) (start_rollback lib calm hook_error overwritten) in
    (Dict.get "CodeSmells/a.py" r.tree ≡ some (regular "theirs"))
    × ((error_of lib calm (change ∷ []) r).rollback_status ≡ partial)
    × ((error_of lib calm (change ∷ []) r).rolled_back ≡ false)
unfolding Dict.get same_state written_state
rollback-keeps_foreign_example =
    rollback-keeps_foreign lib calm overwritten hook_error "CodeSmells/a.py" (λ m tree. refl)
      (λ e. refl, tt) (inl refl)

apply_workspace_changes_node-EndsAs_example :
    EndsAs calm.fails
      (plain_answer true)
      (files_with "old")
      (files_with "new")
      run
      (apply_workspace_changes_node lib calm (plain_answer true) run)
unfolding Dict.get snapshots_of given iter_snapshot_files any_of split snapshots_at
apply_workspace_changes_node-EndsAs_example =
    apply_workspace_changes_node-EndsAs lib calm (plain_answer true) run (files_with "old")
      (files_with "new") (λ m tree. refl) (listed "old", listed "new") canonical

-- The difference is shown as one line.
abbrev pub diff : DiffLibrary
diff = record { decode = some; unified_diff = λ name old new. name ∷ [] }

abbrev pub text : EvidenceText
text = record { dumps = λ entries. "[]"; decimal = λ n. "1"; describe = λ f. "refused" }

-- The tests have passed on the working copy of `snapshots`, whose digest is "listed".
abbrev pub tested : TestRunRecord
tested = record passing { workspace_snapshot_digest = "listed" }

abbrev pub unapproved : Run
unapproved = record {
  state = record reviewed { test_run_records = tested ∷ [] };
  work = approved_work;
  disk = record { source = tree_with "old"; workspaces = ("w", snapshots) ∷ [] };
}

prepare_workspace_approval_node-IsApprovable_example :
    IsApprovable lib diff
      (evidence_on lib text unapproved.disk)
      unapproved.state
      snapshots
      (prepare_workspace_approval_node lib diff text calm.fails unapproved).0.work
unfolding prepare_workspace_approval_node snapshots_of Dict.get route_workspace_preparation
    review_evidence_errors last? any_of split select distinct contains is_protected_path evidence_on
prepare_workspace_approval_node-IsApprovable_example =
    prepare_workspace_approval_node-IsApprovable lib diff text calm.fails unapproved "w" refl refl
      refl

abbrev unused_id : String
unused_id = "0123456789abcdef0123456789abcdef"

create_run_workspace-IsNew_example :
    IsNew lib calm.fails unused_id run (create_run_workspace lib calm.fails unused_id run).0
unfolding create_run_workspace iter_snapshot_files Dict.get any_of split select distinct
create_run_workspace-IsNew_example = create_run_workspace-IsNew lib calm.fails unused_id run refl

abbrev detail : FailureDetail
detail = record {
  code = some "atomic_apply_failed";
  phase = some "rollback";
  conflicts = "codesmells/a.py" ∷ "../secret" ∷ [];
  rollback_status = some "partial";
  recovery_artifacts = ".a.py.backup" ∷ [];
}

abbrev told : PublicFailure
told = record {
  code = "atomic_apply_failed";
  phase = "rollback";
  conflict_category = "atomic_apply_failed";
  rollback_status = "partial";
  requires_manual_action = true;
  affected_file_count = 1;
  affected_files = "codesmells/a.py" ∷ [];
  recovery_available = true;
  recovery_ids = ".a.py.backup" ∷ [];
  guidance = guidance_of "partial";
}

public_workspace_apply_failure-safe_example :
    ((k : String) → contains k told.affected_files ≡ true → IsSafePath lib k)
    × (length told.affected_files ≤ 20)
    × (told.affected_file_count ≡ length told.affected_files)
    × ((told.requires_manual_action ≡ true) ↔ (detail.rollback_status ≡ some "partial"))
    × ((id : String)
        → contains id told.recovery_ids ≡ true
        → IsRecoveryId lib detail.recovery_artifacts id)
    × (length told.recovery_ids ≡ length detail.recovery_artifacts)
unfolding public_workspace_apply_failure contains split is_safe
public_workspace_apply_failure-safe_example =
    public_workspace_apply_failure-safe lib detail [] told refl
