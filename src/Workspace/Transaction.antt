-- ===== src/Workspace/Transaction.antt =====
-- backend/agent/workspace.py, `_atomic_apply_workspace_locked` behind its checks: prepare, commit,
-- and the compensation that puts the old files back.
--
-- A temporary file is known by the path, in the snapshots, of the file it was made for, and stands
-- in a dictionary of its own: `mkstemp` makes names that nothing else has. A dictionary holds the
-- files that exist, so `backup and backup.exists()` is a look-up. What others do to the tree is
-- said by `hook`, at the moments at which the source calls one; it may raise, and each request to
-- the operating system may fail. A `TargetState` that was written follows from the change.
use refactor_agent.Common.{if◌then◌else◌, String, Bool, Option, none, some, List, [], ◌∷◌}
use refactor_agent.Dict
use refactor_agent.Workspace.{
  Node, Tree, Files, WorkspaceLibrary, Operation, Failure, tail, regular, directory,
  before_replacing, make_directory, write_prepared, write_backup, replace, move_away, reparse_point,
  os_error, hook_error,
}
use refactor_agent.Workspace.Targets.{
  TargetState, Change, prefixes, has_reparse_component, assert_target_matches_baseline, file,
}

pub data Moment : Type 0 where
  after_preflight before_commit : Moment
  before_replace after_replace before_rollback : String → Moment

-- What happens around the transaction.
pub record Surroundings : Type 0 where
  pub hook : Moment → Tree → Tree
  pub hook_raises : Moment → Tree → Bool
  pub fails : Operation → Bool

-- `applied` has the last change first.
pub record Transaction : Type 0 where
  pub tree : Tree
  pub prepared : Files
  pub backups : Files
  pub created_dirs : List String
  pub applied : List Change

-- A transaction, and the exception that stopped it, if one did.
abbrev pub Step : Type 0
Step = Transaction × Option Failure

-- The next statement, unless an exception was raised.
unfoldable pub and_then : Step → (Transaction → Step) → Step
and_then (t, none) next = next t
and_then (t, some f) next = (t, some f)

-- What a path holds when the change has been made.
abbrev pub node_of : Option String → Option Node
node_of none = none
node_of (some bytes) = some (regular bytes)

-- The paths above a file that do not exist, the lowest first.
unfoldable missing_above : Tree → List String → List String
missing_above tree [] = []
missing_above tree (d ∷ ds) = elim (Dict.get d tree) [
  | none ↦ d ∷ missing_above tree ds
  | some node ↦ []
]

-- The directories above a file, from the lowest to the code root.
unfoldable reversed : List String → List String → List String
reversed [] acc = acc
reversed (x ∷ xs) acc = reversed xs (x ∷ acc)

module _ (lib : WorkspaceLibrary) (out : Surroundings) where
  open lib use {sha256}
  open out use {hook, hook_raises, fails}

  unfoldable pub parents : String → List String
  unfolding reversed prefixes tail
  parents target =
      tail (reversed ("CodeSmells" ∷ prefixes "CodeSmells" (tail (lib.parts target))) [])

  -- `_call_apply_hook`
  unfoldable pub call_apply_hook : Moment → Transaction → Step
  call_apply_hook m t =
      let after = record t { tree = hook m t.tree } in
      if hook_raises m t.tree then (after, some hook_error) else (after, none)

  unfoldable pub assert_no_reparse_components : Change → Transaction → Step
  assert_no_reparse_components c t =
      if has_reparse_component lib t.tree c.target
      then (t, some (reparse_point c.target))
      else (t, none)

  -- `directory.mkdir()`, which fails where the path exists.
  unfoldable pub make_directory_at : String → Transaction → Step
  make_directory_at d t = elim (Dict.get d t.tree) [
    | some node ↦ (t, some (os_error (make_directory d)))
    | none ↦ if fails (make_directory d) then (t, some (os_error (make_directory d))) else (
      record t { tree = Dict.put d directory t.tree; created_dirs = d ∷ t.created_dirs },
      none,
    )
  ]

  unfoldable pub make_directories : List String → Transaction → Step
  unfolding and_then make_directory_at
  make_directories [] t = (t, none)
  make_directories (d ∷ ds) t = and_then (make_directory_at d t) (make_directories ds)

  -- `_ensure_parent_directory`, for a target below an existing project root.
  unfoldable pub ensure_parent_directory : Change → Transaction → Step
  unfolding make_directories missing_above reversed
  ensure_parent_directory c t =
      make_directories (reversed (missing_above t.tree (parents c.target)) []) t

  -- `_write_same_directory_temp` of the final bytes, if there are any.
  unfoldable pub prepare_final : Option String → Change → Transaction → Step
  prepare_final none c t = (t, none)
  prepare_final (some bytes) c t =
      if fails (write_prepared c.relative)
      then (t, some (os_error (write_prepared c.relative)))
      else (record t { prepared = Dict.put c.relative bytes t.prepared }, none)

  -- `_write_same_directory_temp` of what stands at the target, if a file is expected there.
  unfoldable pub prepare_backup : TargetState → Option Node → Change → Transaction → Step
  prepare_backup (file hash) (some (regular bytes)) c t =
      if fails (write_backup c.relative)
      then (t, some (os_error (write_backup c.relative)))
      else (record t { backups = Dict.put c.relative bytes t.backups }, none)
  prepare_backup (file hash) _ c t = (t, some (os_error (write_backup c.relative)))
  prepare_backup _ found c t = (t, none)

  unfoldable pub prepare_files : Change → Transaction → Step
  unfolding and_then prepare_final prepare_backup
  prepare_files c t =
      and_then (prepare_final c.final c t)
        λ t. prepare_backup c.expected (Dict.get c.target t.tree) c t

  -- Behind `_ensure_parent_directory`.
  unfoldable pub prepare_below : Change → Transaction → Step
  unfolding and_then assert_no_reparse_components prepare_files
  prepare_below c t = and_then (assert_no_reparse_components c t) (prepare_files c)

  unfoldable pub prepare_parent : Change → Transaction → Step
  unfolding and_then ensure_parent_directory prepare_below
  prepare_parent c t = and_then (ensure_parent_directory c t) (prepare_below c)

  unfoldable pub prepare_one : Change → Transaction → Step
  unfolding and_then assert_no_reparse_components prepare_parent
  prepare_one c t = and_then (assert_no_reparse_components c t) (prepare_parent c)

  unfoldable pub prepare : List Change → Transaction → Step
  prepare [] t = (t, none)
  prepare (c ∷ cs) t = and_then (prepare_one c t) (prepare cs)

  unfoldable pub match_baseline : Change → Transaction → Step
  match_baseline c t = (t, assert_target_matches_baseline lib fails before_replacing t.tree c)

  -- `os.replace(prepared[relative], target)`, from the look-up on.
  unfoldable pub install : Change → Option String → Transaction → Step
  install c none t = (t, some (os_error (replace c.relative)))
  install c (some bytes) t =
      if fails (replace c.relative) then (t, some (os_error (replace c.relative))) else (
        record t {
          tree = Dict.put c.target (regular bytes) t.tree;
          prepared = Dict.pop c.relative t.prepared;
          applied = c ∷ t.applied;
        },
        none,
      )

  -- `os.replace(target, backups[relative])` of what stands at the target.
  unfoldable pub take_away : Change → Option Node → Transaction → Step
  take_away c (some (regular bytes)) t =
      if fails (move_away c.relative) then (t, some (os_error (move_away c.relative))) else (
        record t {
          tree = Dict.pop c.target t.tree;
          backups = Dict.put c.relative bytes t.backups;
          applied = c ∷ t.applied;
        },
        none,
      )
  take_away c _ t = (t, some (os_error (move_away c.relative)))

  -- `backups[relative]` is a KeyError where no backup was made.
  unfoldable pub put_away : Change → Option String → Transaction → Step
  unfolding take_away
  put_away c none t = (t, some (os_error (move_away c.relative)))
  put_away c (some old) t = take_away c (Dict.get c.target t.tree) t

  -- `if relative in final_files`
  unfoldable pub replace_by : Option String → Change → Transaction → Step
  unfolding install put_away
  replace_by none c t = put_away c (Dict.get c.relative t.backups) t
  replace_by (some bytes) c t = install c (Dict.get c.relative t.prepared) t

  unfoldable pub replace_target : Change → Transaction → Step
  unfolding replace_by
  replace_target c t = replace_by c.final c t

  unfoldable pub commit_one : Change → Transaction → Step
  unfolding and_then call_apply_hook match_baseline replace_target
  commit_one c t = and_then (call_apply_hook (before_replace c.relative) t) λ t.
      and_then (match_baseline c t)
        λ t. and_then (replace_target c t) (call_apply_hook (after_replace c.relative))

  unfoldable pub commit : List Change → Transaction → Step
  commit [] t = (t, none)
  commit (c ∷ cs) t = and_then (commit_one c t) (commit cs)

  unfoldable pub commit_all : List Change → Transaction → Step
  unfolding and_then call_apply_hook commit
  commit_all cs t = and_then (call_apply_hook before_commit t) (commit cs)

  -- The body of the `try`.
  unfoldable pub run_transaction : List Change → Transaction → Step
  unfolding and_then prepare commit_all
  run_transaction cs t = and_then (prepare cs t) (commit_all cs)
