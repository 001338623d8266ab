-- ===== src/Dependencies.antt =====
-- backend/agent/scheduler.py: `_build_task_dependency_result` and `render_dependency_context`, what
-- a task hands to the tasks that depend on it. `json.dumps`, `str` of a number and the workspace's
-- files are parameters.
pub mod Bounds
use Prim.Native.String.{◌++◌ as text_append}
use refactor_agent.Common.{
  ltb, if◌then◌else◌, is_set, length, take, contains, text_length, take_text, ℕ, zero, suc, ◌+◌,
  String, ◌⊎◌, inl, inr, Bool, true, false, not, ◌&&◌, Option, none, some, List, [], ◌∷◌, ◌++◌, map,
  ◌==◌,
}
use refactor_agent.Dict
use refactor_agent.Dict.{Dict}
use refactor_agent.Messages.{join_text}
use refactor_agent.Plans.{RefactorTask, find_task}
use refactor_agent.State.{
  TaskStatus, TaskDependencyResult, Execution, State, pending, completed, syntax_valid,
  syntax_invalid, syntax_deleted,
}

abbrev pub max_dependency_context_chars : ℕ
max_dependency_context_chars = 6000

abbrev max_dependency_summary_chars : ℕ
max_dependency_summary_chars = 800

abbrev max_dependency_files : ℕ
max_dependency_files = 8

abbrev max_dependency_symbols : ℕ
max_dependency_symbols = 16

-- One direct dependency in the context that a task is given.
pub data Candidate : Type 0 where
  absent : (task_id : String) (status : TaskStatus) → Candidate
  present : (status : TaskStatus) (result : TaskDependencyResult) → Candidate

-- The bounded copy of a result.
clip : TaskDependencyResult → TaskDependencyResult
unfolding take_text
clip r = record {
  task_id = take_text 64 r.task_id;
  modified_files = take max_dependency_files r.modified_files;
  change_summary = take_text max_dependency_summary_chars r.change_summary;
  symbols = map (take_text 200) (take max_dependency_symbols r.symbols);
  workspace_snapshot_digest = take_text 64 r.workspace_snapshot_digest;
  content_sha256 = r.content_sha256;
  syntax_status = r.syntax_status;
}

abbrev status_or : TaskStatus → Option TaskStatus → TaskStatus
status_or d none = d
status_or d (some s) = s

-- A result carries the status "completed".
candidate : Execution → String → Candidate
unfolding clip
candidate ex d = elim (Dict.get d ex.task_results) [
  | none ↦ absent d (status_or pending (Dict.get d ex.task_statuses))
  | some r ↦ present (status_or completed (Dict.get d ex.task_statuses)) (clip r)
]

-- `selected.pop()`
pub drop_last {ℓ} : {A : Type ℓ} → List A → List A
drop_last [] = []
drop_last (x ∷ []) = []
drop_last (x ∷ y ∷ xs) = x ∷ drop_last (y ∷ xs)

abbrev pub is_nil {ℓ} : {A : Type ℓ} → List A → Bool
is_nil [] = true
is_nil (x ∷ xs) = false

-- `json.dumps` of the payload with these dependencies, `truncated` and `omitted_count`.
abbrev pub Encoder : Type 0
Encoder = List Candidate → Bool → ℕ → String

module _ (encode : Encoder) where
  too_long : String → Bool
  unfolding text_length
  too_long encoded = ltb max_dependency_context_chars (text_length encoded)

  -- The `for` loop over the dependencies.
  gather : Execution → List String → List Candidate → ℕ → List Candidate × ℕ
  gather ex [] selected omitted = (selected, omitted)
  gather ex (d ∷ ds) selected omitted =
      let longer = selected ++ candidate ex d ∷ [] in
      let over = too_long (encode longer false 0) in
      gather ex ds (if over then selected else longer) (if over then omitted + 1 else omitted)

  -- The `while` loop, with a round of fuel for each selected candidate.
  shrink : ℕ → List Candidate → Bool → ℕ → String
  shrink zero selected truncated omitted = encode selected truncated omitted
  shrink (suc fuel) selected truncated omitted =
      let shorter = shrink fuel (drop_last selected) true (omitted + 1) in
      let encoded = encode selected truncated omitted in
      if too_long encoded && not (is_nil selected) then shorter else encoded

  pub render_dependency_context : Execution → RefactorTask → String
  unfolding gather shrink too_long candidate drop_last
  render_dependency_context ex task =
      let (selected, omitted) = gather ex task.dependencies [] 0 in
      shrink (length selected) selected (ltb 0 omitted) omitted

-- What the workspace module reports of one file of the snapshot.
pub record FileSnapshot : Type 0 where
  pub path : String
  pub size_bytes : ℕ
  pub sha256 : String

-- What the task's workspace holds: the snapshot, the changed paths, and of the task's file whether
-- it is there and the qualified names that the code indexer reads (none, where it raises).
pub record WorkspaceView : Type 0 where
  pub digest : String
  pub files : List FileSnapshot
  pub changed_paths : List String
  pub is_file : Bool
  pub scanned : Option (List String)

-- The result, or the text of the exception.
pub data Built : Type 0 where
  built : TaskDependencyResult → Built
  raised : String → Built

find_file : String → List FileSnapshot → Option FileSnapshot
find_file path [] = none
find_file path (f ∷ fs) = if f.path == path then some f else find_file path fs

module _ (decimal : ℕ → String) (view : String → String → WorkspaceView ⊎ String) where
  summarise : String → ℕ → String → String → String
  unfolding join_text take_text
  summarise change_kind size_bytes sha syntax = take_text max_dependency_summary_chars (
      join_text (
        change_kind
        ∷ "; bytes="
        ∷ decimal size_bytes
        ∷ "; sha256="
        ∷ sha
        ∷ "; syntax="
        ∷ syntax
        ∷ []))

  -- The file is not in the snapshot, or is no file.
  deleted_result : WorkspaceView → RefactorTask → List String → TaskDependencyResult
  unfolding summarise
  deleted_result w t modified = record {
    task_id = t.id;
    modified_files = take max_dependency_files modified;
    change_summary = summarise "deleted" 0 "<deleted>" "deleted";
    symbols = [];
    workspace_snapshot_digest = w.digest;
    content_sha256 = none;
    syntax_status = syntax_deleted;
  }

  present_result : WorkspaceView → RefactorTask → List String → FileSnapshot → TaskDependencyResult
  unfolding summarise
  present_result w t modified f =
      let sha = if f.sha256 == "" then "<deleted>" else f.sha256 in
      let kind = if is_nil modified then "unchanged" else "modified" in
      elim w.scanned [
        | some names ↦ record {
          task_id = t.id;
          modified_files = take max_dependency_files modified;
          change_summary = summarise kind f.size_bytes sha "valid";
          symbols = take max_dependency_symbols names;
          workspace_snapshot_digest = w.digest;
          content_sha256 = some f.sha256;
          syntax_status = syntax_valid;
        }
        | none ↦ record {
          task_id = t.id;
          modified_files = take max_dependency_files modified;
          change_summary = summarise kind f.size_bytes sha "invalid";
          symbols = [];
          workspace_snapshot_digest = w.digest;
          content_sha256 = some f.sha256;
          syntax_status = syntax_invalid;
        }
      ]

  view_result : WorkspaceView → RefactorTask → TaskDependencyResult
  unfolding present_result deleted_result find_file
  view_result w t =
      let modified = if contains t.file_path w.changed_paths then t.file_path ∷ [] else [] in
      elim (find_file t.file_path w.files) [
        | none ↦ deleted_result w t modified
        | some f ↦ if w.is_file then present_result w t modified f else deleted_result w t modified
      ]

  -- The view's text is that of an exception of the workspace module.
  pub build_task_dependency_result : State → String → Built
  unfolding view_result
  build_task_dependency_result s task_id =
      if is_set s.workspace_id
      then elim s.refactor_plan [
        | none ↦ raised "无法为缺少工作区或计划的任务生成依赖结果"
        | some plan ↦ elim (find_task task_id plan.tasks) [
          | none ↦ raised ""
          | some t ↦ elim s.workspace_id [
            | none ↦ raised ""
            | some workspace_id ↦ elim (view workspace_id t.file_path) [
              | inr exc ↦ raised exc
              | inl w ↦ built (view_result w t)
            ]
          ]
        ]
      ]
      else raised "无法为缺少工作区或计划的任务生成依赖结果"
