-- ===== src/Workspace/Creation.antt =====
-- backend/agent/workspace.py, `create_run_workspace`: the two snapshots of a new run.
pub mod Copies
use text.Mathlib.Text.{starts_with}
use refactor_agent.Common.{
  if◌then◌else◌, any_of, String, Bool, false, not, ◌&&◌, ◌||◌, Option, none, some, [], ◌∷◌, ◌==◌,
}
use refactor_agent.Dict
use refactor_agent.Dict.{Dict}
use refactor_agent.Workspace.{
  Node, Tree, Files, Snapshots, Disk, WorkspaceLibrary, Copying, Operation, Failure, Outcome,
  is_ignored_part, tail, hash_snapshot, regular, directory, special, link, to_baseline, to_working,
  copy_file, make_workspace_root, illegal_workspace_id, snapshot_has_link, special_file,
  workspace_exists, os_error, returned, raised,
}
use refactor_agent.Workspace.Apply.{WorkspaceState}
use refactor_agent.Workspace.Approval.{Run, is_workspace_id, cleanup_run_workspace}

unfoldable is_code_path : String → Bool
is_code_path path = starts_with path "CodeSmells/"

-- `source_path.is_symlink() or is_junction()`, for some path that `rglob` lists.
pub has_link : Tree → Bool
unfolding is_code_path
has_link [] = false
has_link ((path, link) ∷ tree) = is_code_path path || has_link tree
has_link ((path, node) ∷ tree) = has_link tree

unfoldable ends_in_pyc : String → Bool
ends_in_pyc String.[] = false
ends_in_pyc (String.◌∷◌ c s) = let rest = ends_in_pyc s in String.◌∷◌ c s == ".pyc" || rest

-- `ignore_patterns("__pycache__", ".pytest_cache", "*.pyc")`, of one part of a path.
unfoldable is_ignored_name : String → Bool
unfolding is_ignored_part ends_in_pyc
is_ignored_name name = is_ignored_part name || ends_in_pyc name

-- What `copytree` copies of the source tree, and of a snapshot.
pub is_root_path : String → Bool
unfolding is_code_path
is_root_path path = path == "CodeSmells" || is_code_path path

-- The fields that `create_run_workspace` returns.
pub new_work : Files → WorkspaceState → WorkspaceState
new_work hashes w = record w {
  baseline_file_hashes = hashes;
  final_file_hashes = [];
  final_workspace_snapshot_digest = "";
  aggregate_diff = "";
  workspace_approved = false;
  workspace_applied = false;
  workspace_rolled_back = false;
  workspace_cleaned = false;
  workspace_error = none;
  workspace_apply_failure = none;
}

abbrev pub with_snapshots : String → Snapshots → Run → Run
with_snapshots id s r = record r {
  disk = record r.disk { workspaces = Dict.put id s r.disk.workspaces };
}

module _ (lib : WorkspaceLibrary) (fails : Operation → Bool) where
  pub is_source_path : String → Bool
  unfolding is_code_path is_ignored_name tail
  is_source_path path =
      path == "CodeSmells"
      || (is_code_path path && not (any_of is_ignored_name (tail (lib.parts path))))

  -- The copy of one entry.
  pub copy_error : Copying → String → Node → Option Failure
  copy_error to path directory = none
  copy_error to path special = some (special_file path)
  copy_error to path (regular bytes) =
      if fails (copy_file to path) then some (os_error (copy_file to path)) else none
  copy_error to path link =
      if fails (copy_file to path) then some (os_error (copy_file to path)) else none

  pub add_copy : Option Failure → String → Node → Tree × Option Failure → Tree × Option Failure
  add_copy (some f) path node rest = (rest.0, some f)
  add_copy none path node rest = ((path, node) ∷ rest.0, rest.1)

  -- `copytree` of the entries that are kept: what it has copied, and its exception. It goes on behind
  -- an entry that it cannot copy, and raises at the end.
  pub copy_tree : Copying → (String → Bool) → Tree → Tree × Option Failure
  unfolding copy_error add_copy
  copy_tree to keeps [] = ([], none)
  copy_tree to keeps ((path, node) ∷ tree) =
      let rest = copy_tree to keeps tree in
      if keeps path then add_copy (copy_error to path node) path node rest else rest

  -- The second copy is made of the first.
  pub copy_again : Tree → Option Failure → Snapshots × Option Failure
  unfolding copy_tree is_root_path
  copy_again baseline (some f) = (record { baseline = baseline; working = [] }, some f)
  copy_again baseline none =
      let copy = copy_tree to_working is_root_path baseline in
      (record { baseline = baseline; working = copy.0 }, copy.1)

  pub copy_snapshots : Tree → Snapshots × Option Failure
  unfolding copy_tree copy_again is_source_path
  copy_snapshots source =
      let copy = copy_tree to_baseline is_source_path source in copy_again copy.0 copy.1

  pub hash_baseline : Snapshots → Option Failure → Outcome Files
  unfolding hash_snapshot
  hash_baseline s (some f) = raised f
  hash_baseline s none = hash_snapshot lib s.baseline

  -- The `except`: what stands at the workspace's directory is removed, which may raise in its turn.
  pub abandon : Failure → Disk × Option Failure → Run → Run × Option Failure
  abandon f (disk, none) r = (record r { disk = disk }, some f)
  abandon f (disk, some g) r = (record r { disk = disk }, some g)

  pub finish_creation : String → Run → Snapshots → Outcome Files → Run × Option Failure
  unfolding abandon cleanup_run_workspace new_work
  finish_creation id r s (raised f) =
      abandon f (cleanup_run_workspace fails id (with_snapshots id s r).disk) r
  finish_creation id r s (returned hashes) = (
    record (with_snapshots id s r) {
      state = record r.state { workspace_id = some id };
      work = new_work hashes r.work;
    },
    none,
  )

  -- `copytree` raises FileExistsError where the directory exists.
  pub create_at : String → Run → Option Snapshots → Run × Option Failure
  unfolding abandon cleanup_run_workspace copy_snapshots hash_baseline finish_creation
  create_at id r (some found) = abandon workspace_exists (cleanup_run_workspace fails id r.disk) r
  create_at id r none =
      let copy = copy_snapshots r.disk.source in
      finish_creation id r copy.0 (hash_baseline copy.0 copy.1)

  -- `create_run_workspace` under the id `uuid4().hex`, and `initialize_workspace_node`, which returns
  -- what it returns.
  unfoldable pub create_run_workspace : String → Run → Run × Option Failure
  unfolding is_workspace_id has_link abandon cleanup_run_workspace create_at
  create_run_workspace id r =
      if not (is_workspace_id id)
      then (r, some illegal_workspace_id)
      else if fails make_workspace_root
      then (r, some (os_error make_workspace_root))
      else if has_link r.disk.source
      then abandon snapshot_has_link (cleanup_run_workspace fails id r.disk) r
      else create_at id r (Dict.get id r.disk.workspaces)
