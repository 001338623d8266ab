-- ===== src/Workspace/Compensation.antt =====
-- backend/agent/workspace.py, the `except` and `finally` of `_atomic_apply_workspace_locked`: every
-- file that the transaction has written goes back, unless somebody else has written it since.
use text.Mathlib.Text.{starts_with}
use Prim.Native.String.{◌++◌ as text_append}
use refactor_agent.Common.{
  if◌then◌else◌, contains, String, Bool, true, false, not, ◌&&◌, Option, none, some, List, [], ◌∷◌,
  ◌++◌, map,
}
use refactor_agent.Dict
use refactor_agent.Workspace.{
  Node, Tree, Files, WorkspaceLibrary, Temp, Operation, Failure, keys, regular, directory,
  reading_state, prepared_temp, backup_temp, rename_backup, restore, remove, remove_empty,
  unlink_temp, baseline_conflict, returned, raised,
}
use refactor_agent.Workspace.Targets.{
  TargetState, same_state, Change, inspect_target_state, missing, file,
}
use refactor_agent.Workspace.Transaction.{
  Surroundings, Transaction, Step, run_transaction, before_rollback,
}

-- `rollback_status`
pub data RollbackStatus : Type 0 where
  complete partial not_required : RollbackStatus

-- `AtomicApplyError`: `rolled_back`, and its `detail`. The artifacts are named by the file whose old
-- bytes they hold.
pub record AtomicApplyError : Type 0 where
  pub rolled_back : Bool
  pub rollback_status : RollbackStatus
  pub conflicts : List String
  pub recovery_artifacts : List String

-- The state of the loop. `preserved` holds the temporary files that are not deleted at the end.
pub record Rollback : Type 0 where
  pub tree : Tree
  pub backups : Files
  pub preserved : Files
  pub rollback_errors : List String
  pub conflicts : List String
  pub recovery_artifacts : List String

-- `_TargetState` that the transaction wrote for a change.
unfoldable pub written_state : WorkspaceLibrary → Option String → TargetState
written_state lib none = missing
written_state lib (some bytes) = file (lib.sha256 bytes)

-- The backup, if it exists, is kept and reported.
unfoldable pub preserve : Change → Rollback → Rollback
preserve c r = elim (Dict.get c.relative r.backups) [
  | none ↦ r
  | some bytes ↦ record r {
    backups = Dict.pop c.relative r.backups;
    preserved = Dict.put c.relative bytes r.preserved;
    recovery_artifacts = r.recovery_artifacts ++ c.relative ∷ [];
  }
]

-- `rollback_errors.append(...)`
unfoldable pub add_error : String → Rollback → Rollback
add_error error r = record r { rollback_errors = r.rollback_errors ++ error ∷ [] }

-- An exception inside the loop.
unfoldable pub rollback_failed : Change → Rollback → Rollback
unfolding preserve add_error
rollback_failed c r = preserve c (add_error (text_append c.relative ":error") r)

unfoldable add_conflict : String → List String → List String
add_conflict k conflicts = if contains k conflicts then conflicts else conflicts ++ k ∷ []

-- The targets of the changes for which such a temporary file stands in the target's directory.
pub temp_targets : List Change → Files → List String
temp_targets [] temps = []
temp_targets (c ∷ cs) temps =
    let rest = temp_targets cs temps in
    elim (Dict.get c.relative temps) [ none ↦ rest | some bytes ↦ c.target ∷ rest ]

-- `rmdir` removes an empty directory only; any failure is ignored. The temporary files that are still
-- there stand beside the targets `temps`.
pub is_empty : String → Tree → Bool
is_empty d [] = true
is_empty d ((k, node) ∷ tree) = not (starts_with k (text_append d "/")) && is_empty d tree

pub is_free_of : String → List String → Bool
is_free_of d [] = true
is_free_of d (target ∷ temps) = not (starts_with target (text_append d "/")) && is_free_of d temps

module _ (fails : Operation → Bool) (temps : List String) where
  pub is_removable : String → Tree → Bool
  unfolding is_empty is_free_of
  is_removable d tree = is_empty d tree && is_free_of d temps && not (fails (remove_empty d))

  unfoldable pub remove_found : Option Node → String → Tree → Tree
  unfolding is_removable
  remove_found (some directory) d tree = if is_removable d tree then Dict.pop d tree else tree
  remove_found _ d tree = tree

  unfoldable pub remove_directory : String → Tree → Tree
  unfolding remove_found
  remove_directory d tree = remove_found (Dict.get d tree) d tree

  -- `for directory in reversed(created_dirs)`, the last first.
  unfoldable pub remove_directories : List String → Tree → Tree
  unfolding remove_directory
  remove_directories [] tree = tree
  remove_directories (d ∷ ds) tree = remove_directories ds (remove_directory d tree)

-- The conflicts that the exception named.
unfoldable conflicts_of : Failure → List String
conflicts_of (baseline_conflict k phase) = k ∷ []
conflicts_of _ = []

module _ (lib : WorkspaceLibrary) (out : Surroundings) where
  open out use {hook, hook_raises, fails}

  -- `rollback_errors.append(f"{relative}:third_party_change")` and what follows. If the backup
  -- cannot be renamed, the exception is one inside the loop.
  unfoldable pub third_party_change : Change → Rollback → Rollback
  unfolding preserve rollback_failed add_error add_conflict
  third_party_change c r =
      let noted =
        add_error (text_append c.relative ":third_party_change")
          (record r { conflicts = add_conflict c.relative r.conflicts }) in
      elim (Dict.get c.relative r.backups) [
        | none ↦ noted
        | some bytes ↦
            if fails (rename_backup c.relative) then rollback_failed c noted else preserve c noted
      ]

  -- The old file is put back, or, if there was none, the new one removed.
  unfoldable pub put_back : Change → Rollback → Rollback
  unfolding rollback_failed
  put_back c r = elim (Dict.get c.relative r.backups) [
    | some bytes ↦ if fails (restore c.relative) then rollback_failed c r else record r {
      tree = Dict.put c.target (regular bytes) r.tree;
      backups = Dict.pop c.relative r.backups;
    }
    | none ↦ elim (Dict.get c.target r.tree) [
      | none ↦ rollback_failed c r
      | some node ↦
          if fails (remove c.relative)
          then rollback_failed c r
          else record r { tree = Dict.pop c.target r.tree }
    ]
  ]

  -- One turn of the loop, behind the hook.
  unfoldable pub compensate : Change → Rollback → Rollback
  unfolding third_party_change put_back rollback_failed inspect_target_state same_state
      written_state
  compensate c r = elim (inspect_target_state lib fails reading_state r.tree c.target) [
    | raised f ↦ rollback_failed c r
    | returned observed ↦
        if same_state observed (written_state lib c.final)
        then put_back c r
        else third_party_change c r
  ]

  unfoldable pub rollback_one : Change → Rollback → Rollback
  unfolding compensate rollback_failed
  rollback_one c r =
      let after = record r { tree = hook (before_rollback c.relative) r.tree } in
      if hook_raises (before_rollback c.relative) r.tree
      then rollback_failed c after
      else compensate c after

  -- `for relative in reversed(applied)`
  unfoldable pub rollback : List Change → Rollback → Rollback
  rollback [] r = r
  rollback (c ∷ cs) r = rollback cs (rollback_one c r)

  -- The loop starts with the backups that exist and the conflicts that the exception named.
  unfoldable pub start_rollback : Failure → Transaction → Rollback
  unfolding conflicts_of
  start_rollback f t = record {
    tree = t.tree;
    backups = t.backups;
    preserved = [];
    rollback_errors = [];
    conflicts = conflicts_of f;
    recovery_artifacts = [];
  }

  -- `rolled_back=bool(applied)` and `"complete" if applied else "not_required"`.
  unfoldable pub error_of : List Change → Rollback → AtomicApplyError
  error_of applied r = elim r.rollback_errors [
    | e ∷ es ↦ record {
      rolled_back = false;
      rollback_status = partial;
      conflicts = r.conflicts;
      recovery_artifacts = r.recovery_artifacts;
    }
    | [] ↦ elim applied [
      | [] ↦ record {
        rolled_back = false;
        rollback_status = not_required;
        conflicts = r.conflicts;
        recovery_artifacts = [];
      }
      | c ∷ cs ↦ record {
        rolled_back = true;
        rollback_status = complete;
        conflicts = r.conflicts;
        recovery_artifacts = [];
      }
    ]
  ]

-- What the transaction leaves: the tree, the temporary files that are kept on purpose, and the
-- error. If `finally` is refused the deletion of a temporary file, the exception for that one is
-- raised in place of the error.
pub record Applied : Type 0 where
  pub tree : Tree
  pub recovery : Files
  pub error : Option AtomicApplyError
  pub refused_unlink : Option Temp

-- `[*prepared.values(), *backups.values()]`, of the files that exist.
unfoldable temps_of : Files → Files → List Temp
unfolding keys
temps_of prepared backups = map prepared_temp (keys prepared) ++ map backup_temp (keys backups)

-- `temp_path.unlink(missing_ok=True)` for one after the other.
unfoldable pub unlink_temps : (Operation → Bool) → List Temp → Option Temp
unlink_temps fails [] = none
unlink_temps fails (temp ∷ temps) =
    let rest = unlink_temps fails temps in if fails (unlink_temp temp) then some temp else rest

module _ (lib : WorkspaceLibrary) (out : Surroundings) where
  -- The `except` branch, then `finally`, which deletes every other temporary file. While the
  -- directories are removed, the temporary files are still there.
  unfoldable pub finish_transaction : List Change → Step → Applied
  unfolding rollback start_rollback error_of remove_directories unlink_temps temps_of temp_targets
  finish_transaction cs (t, none) = record {
    tree = t.tree;
    recovery = [];
    error = none;
    refused_unlink = unlink_temps out.fails (temps_of t.prepared t.backups);
  }
  finish_transaction cs (t, some f) =
      let r = rollback lib out t.applied (start_rollback lib out f t) in
      record {
        tree =
            remove_directories out.fails
              (temp_targets cs t.prepared
                ++ temp_targets cs r.backups
                ++ temp_targets cs r.preserved)
              t.created_dirs r.tree;
        recovery = r.preserved;
        error = some (error_of lib out t.applied r);
        refused_unlink = unlink_temps out.fails (temps_of t.prepared r.backups);
      }

  unfoldable pub start_transaction : Tree → Transaction
  start_transaction tree = record {
    tree = tree;
    prepared = [];
    backups = [];
    created_dirs = [];
    applied = [];
  }

  -- The changes, with the compensation of what was done if they cannot all be made.
  unfoldable pub transact : List Change → Tree → Applied
  unfolding finish_transaction start_transaction run_transaction
  transact cs tree = finish_transaction cs (run_transaction lib out cs (start_transaction tree))
