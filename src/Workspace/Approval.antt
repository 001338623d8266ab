-- ===== src/Workspace/Approval.antt =====
-- backend/agent/workspace.py, the nodes of the workspace: its creation, the diff that the user is
-- asked to approve, the answer, and the clean-up.
--
-- A node takes the run, the state of the graph and of the workspace with the disk, to the run that
-- it leaves and the exception that escapes from it, if one does.
use Prim.Native.Char.{Char, code}
use refactor_agent.Common.{
  ltb, leb, eqb, if◌then◌else◌, text_length, ℕ, String, Bool, true, false, not, ◌&&◌, ◌||◌, Option,
  none, some, List, [], ◌∷◌, ◌++◌,
}
use refactor_agent.Dict
use refactor_agent.Messages.{join_with}
use refactor_agent.State.{ReviewStatus, State}
use refactor_agent.Workspace.{
  Files, Snapshots, Disk, WorkspaceLibrary, Operation, Failure, Outcome, differing,
  iter_snapshot_files, hashes_of, assert_no_protected_changes, remove_workspace,
  illegal_workspace_id, diff_too_long, nothing_changed, undecodable, os_error, returned, raised,
}
use refactor_agent.Workspace.Manifest.{build_workspace_snapshot}
use refactor_agent.Workspace.Apply.{WorkspaceState, given}

abbrev pub max_aggregate_diff_chars : ℕ
max_aggregate_diff_chars = 500000

pub record Run : Type 0 where
  pub state : State
  pub work : WorkspaceState
  pub disk : Disk

-- `bytes.decode("utf-8")` of the file's bytes, none where it raises, and `unified_diff` of the
-- lines of the two texts, under the file's name.
pub record DiffLibrary : Type 0 where
  pub decode : String → Option String
  pub unified_diff : String → String → String → List String

unfoldable pub set_review : Option ReviewStatus → Run → Run
set_review status r = record r { state = record r.state { review_status = status } }

-- What the workspace directory holds: nothing, if it does not exist.
unfoldable pub snapshots_of : String → Disk → Snapshots
snapshots_of id disk = elim (Dict.get id disk.workspaces) [
  | none ↦ record { baseline = []; working = [] }
  | some snapshots ↦ snapshots
]

-- `_WORKSPACE_ID_PATTERN`
unfoldable is_hex : Char → Bool
is_hex c = leb b'0' (code c) && leb (code c) b'9' || leb b'a' (code c) && leb (code c) b'f'

unfoldable all_hex : String → Bool
unfolding is_hex
all_hex String.[] = true
all_hex (String.◌∷◌ c s) = let rest = all_hex s in is_hex c && rest

unfoldable pub is_workspace_id : String → Bool
unfolding all_hex text_length
is_workspace_id id = all_hex id && eqb (text_length id) 32

-- `cleanup_run_workspace`: the disk that it leaves, and the exception.
unfoldable pub cleanup_run_workspace : (Operation → Bool) → String → Disk → Disk × Option Failure
unfolding is_workspace_id
cleanup_run_workspace fails id disk =
    if not (is_workspace_id id)
    then (disk, some illegal_workspace_id)
    else elim (Dict.get id disk.workspaces) [
      | none ↦ (disk, none)
      | some snapshots ↦
          if fails remove_workspace
          then (disk, some (os_error remove_workspace))
          else (record disk { workspaces = Dict.pop id disk.workspaces }, none)
    ]

-- The update of `cleanup_workspace_node`.
unfoldable pub cleaned_with : Disk × Option Failure → Run → Run
cleaned_with (disk, none) r = record r {
  work = record r.work { workspace_cleaned = true };
  disk = disk;
}
cleaned_with (disk, some f) r = record r {
  work = record r.work { workspace_cleaned = false; workspace_error = some f };
  disk = disk;
}

unfoldable pub cleanup_workspace_node : (Operation → Bool) → Run → Run
unfolding cleaned_with cleanup_run_workspace given
cleanup_workspace_node fails r = elim (given r.state.workspace_id) [
  | none ↦ record r { work = record r.work { workspace_cleaned = true } }
  | some id ↦ cleaned_with (cleanup_run_workspace fails id r.disk) r
]

-- `route_workspace_preparation`: whether the application may be asked for.
unfoldable pub route_workspace_preparation : Run → Bool
route_workspace_preparation r = elim r.work.workspace_error [ none ↦ true | some f ↦ false ]

-- `(aggregate_diff, final_hashes, changed_files)`
pub record AggregateDiff : Type 0 where
  pub aggregate_diff : String
  pub final_hashes : Files
  pub changed_files : List String

module _ (lib : WorkspaceLibrary) (diff : DiffLibrary) where
  open lib use {sha256}
  open diff use {decode, unified_diff}

  -- A file that does not exist is an empty text.
  unfoldable pub text_of : Option String → Option String
  text_of none = some ""
  text_of (some bytes) = decode bytes

  unfoldable hash_of : Option String → String
  hash_of none = sha256 ""
  hash_of (some bytes) = sha256 bytes

  pub change_kind : Option String → Option String → String
  change_kind none after = "创建空文件"
  change_kind before none = "删除空文件"
  change_kind before after = "仅换行符或文件结尾发生变化"

  -- The lines that stand for a change that `unified_diff` does not show.
  unfoldable pub byte_change : String → Option String → Option String → List String
  unfolding change_kind hash_of join_with
  byte_change relative before after =
      join_with "" ("--- a/" ∷ relative ∷ [])
      ∷ join_with "" ("+++ b/" ∷ relative ∷ [])
      ∷ "@@ 字节级变更 @@"
      ∷ join_with "" ("- " ∷ change_kind before after ∷ [])
      ∷ join_with "" ("+ before_sha256=" ∷ hash_of before ∷ [])
      ∷ join_with "" ("+ after_sha256=" ∷ hash_of after ∷ [])
      ∷ []

  unfoldable pub shown : List String → List String → List String
  shown [] substitute = substitute
  shown (line ∷ lines) substitute = line ∷ lines

  -- The section of one changed file.
  unfoldable pub file_diff : String → Option String → Option String → Outcome (List String)
  unfolding text_of shown byte_change
  file_diff relative before after = elim (text_of before) [
    | none ↦ raised (undecodable relative)
    | some old ↦ elim (text_of after) [
      | none ↦ raised (undecodable relative)
      | some new ↦
          returned (shown (unified_diff relative old new) (byte_change relative before after))
    ]
  ]

  unfoldable pub diff_sections : Files → Files → List String → Outcome (List String)
  unfolding file_diff
  diff_sections baseline_files final_files [] = returned []
  diff_sections baseline_files final_files (k ∷ ks) =
      let rest = diff_sections baseline_files final_files ks in
      elim (file_diff k (Dict.get k baseline_files) (Dict.get k final_files)) [
        | raised f ↦ raised f
        | returned lines ↦ elim rest [
          | raised f ↦ raised f
          | returned more ↦ returned (lines ++ more)
        ]
      ]

  unfoldable pub require_changes : List String → AggregateDiff → Outcome AggregateDiff
  require_changes [] d = raised nothing_changed
  require_changes (k ∷ ks) d = returned d

  -- The last two tests of `build_aggregate_diff`.
  unfoldable pub bounded_diff : AggregateDiff → Outcome AggregateDiff
  unfolding text_length require_changes
  bounded_diff d =
      if ltb max_aggregate_diff_chars (text_length d.aggregate_diff)
      then raised diff_too_long
      else require_changes d.changed_files d

  unfoldable pub diff_of_files : Files → Files → Outcome AggregateDiff
  unfolding diff_sections differing bounded_diff hashes_of join_with
  diff_of_files baseline_files final_files =
      elim (diff_sections baseline_files final_files (differing baseline_files final_files)) [
        | raised f ↦ raised f
        | returned lines ↦ bounded_diff (record {
          aggregate_diff = join_with "\n" lines;
          final_hashes = hashes_of lib final_files;
          changed_files = differing baseline_files final_files;
        })
      ]

  unfoldable pub build_aggregate_diff : Snapshots → Outcome AggregateDiff
  unfolding iter_snapshot_files assert_no_protected_changes diff_of_files
  build_aggregate_diff snapshots = elim (iter_snapshot_files lib snapshots.baseline) [
    | raised f ↦ raised f
    | returned baseline_files ↦ elim (iter_snapshot_files lib snapshots.working) [
      | raised f ↦ raised f
      | returned final_files ↦ elim (assert_no_protected_changes lib baseline_files final_files) [
        | some f ↦ raised f
        | none ↦ diff_of_files baseline_files final_files
      ]
    ]
  ]

  -- The body of the `try` of `prepare_workspace_approval_node`, behind the evidence.
  unfoldable pub prepared_work : WorkspaceState → Snapshots → Outcome WorkspaceState
  unfolding build_aggregate_diff build_workspace_snapshot
  prepared_work w snapshots = elim (build_aggregate_diff snapshots) [
    | raised f ↦ raised f
    | returned d ↦ elim (build_workspace_snapshot lib snapshots.working) [
      | raised f ↦ raised f
      | returned snapshot ↦ returned (record w {
        aggregate_diff = d.aggregate_diff;
        final_file_hashes = d.final_hashes;
        final_workspace_snapshot_digest = snapshot.digest;
        workspace_changed_files = d.changed_files;
        workspace_error = none;
      })
    ]
  ]
