-- ===== src/Workspace/Targets.antt =====
-- backend/agent/workspace.py, the files of the real source tree that a change is applied to:
-- `_normalize_snapshot_path`, `_apply_target`, the search for links and the comparison with the
-- baseline.
use text.Mathlib.Text.{starts_with}
use refactor_agent.Common.{
  if◌then◌else◌, any_of, contains, String, ◌≡◌, refl, Bool, true, false, ◌||◌, Option, none, some,
  List, [], ◌∷◌, ◌==◌, eq_iff,
}
use refactor_agent.Dict
use refactor_agent.Paths.{to_slashes, relative_to, canonical_refactor_path, accepted, refused}
use refactor_agent.Messages.{join_with}
use refactor_agent.Workspace.{
  Node, Tree, WorkspaceLibrary, ConflictPhase, Operation, Failure, Outcome, tail, regular,
  directory, special, link, reading_state, read_state, illegal_relative_path, not_code_path,
  identity_changed, outside_code, reparse_point, path_policy, baseline_conflict, os_error, returned,
  raised,
}

-- `_TargetState`
pub data TargetState : Type 0 where
  missing : TargetState
  file : String → TargetState
  is_directory is_special : TargetState

unfoldable pub same_state : TargetState → TargetState → Bool
same_state missing missing = true
same_state (file a) (file b) = a == b
same_state is_directory is_directory = true
same_state is_special is_special = true
same_state _ _ = false

pub same_state-file : (s : TargetState) (a : String) → same_state s (file a) ≡ true → s ≡ file a
unfolding same_state
same_state-file missing a h = cc
same_state-file (file b) a h = rw ((eq_iff b a).0 h)
same_state-file is_directory a h = cc
same_state-file is_special a h = cc

pub same_state-missing : (s : TargetState) → same_state s missing ≡ true → s ≡ missing
unfolding same_state
same_state-missing missing h = refl
same_state-missing (file b) h = cc
same_state-missing is_directory h = cc
same_state-missing is_special h = cc

-- `_expected_baseline_state`
unfoldable pub expected_baseline_state : Option String → TargetState
expected_baseline_state none = missing
expected_baseline_state (some hash) = file hash

-- One file that is going to change: its path in the snapshots, its target, the state in which the
-- run found it and its final bytes, if it is to exist.
pub record Change : Type 0 where
  pub relative : String
  pub target : String
  pub expected : TargetState
  pub final : Option String

-- The paths that lead from a root to a file, the file's own included.
unfoldable pub prefixes : String → List String → List String
unfolding join_with
prefixes root [] = []
prefixes root (p ∷ ps) = let here = join_with "/" (root ∷ p ∷ []) in here ∷ prefixes here ps

unfoldable is_file : Option Node → Bool
is_file (some (regular bytes)) = true
is_file (some special) = true
is_file _ = false

unfoldable without_last : List String → List String
without_last [] = []
without_last (x ∷ []) = []
without_last (x ∷ y ∷ ys) = x ∷ without_last (y ∷ ys)

abbrev pub is_link : Option Node → Bool
is_link (some link) = true
is_link _ = false

module _ (lib : WorkspaceLibrary) where
  open lib use {sha256, parts, as_posix, is_absolute, casefold, abspath}

  unfoldable pub normalize_snapshot_path : String → Outcome String
  unfolding to_slashes
  normalize_snapshot_path relative_path =
      let normalized = to_slashes relative_path in
      if is_absolute normalized || contains ".." (parts normalized)
      then raised illegal_relative_path
      else if starts_with (as_posix normalized) "CodeSmells/"
      then returned (as_posix normalized)
      else raised not_code_path

  -- `_canonical_relative_path`
  pub canonical_relative_path : String → Outcome String
  unfolding canonical_refactor_path
  canonical_relative_path path = elim (canonical_refactor_path lib.paths path) [
    | refused e ↦ raised (path_policy e)
    | accepted normalized ↦ returned normalized
  ]

  -- The last test of `_apply_target`: `commonpath` of the target and the code root is that root.
  unfoldable pub within_code : String → Outcome String
  unfolding relative_to
  within_code target = elim (relative_to (abspath "CodeSmells") (abspath target)) [
    | none ↦ raised (outside_code target)
    | some rest ↦ returned target
  ]

  -- `_apply_target`
  unfoldable pub apply_target : String → Outcome String
  unfolding normalize_snapshot_path canonical_relative_path within_code
  apply_target relative = elim (normalize_snapshot_path relative) [
    | raised f ↦ raised f
    | returned normalized ↦ elim (canonical_relative_path normalized) [
      | raised f ↦ raised f
      | returned canonical ↦
          if casefold canonical == casefold normalized
          then within_code normalized
          else raised (identity_changed relative)
    ]
  ]

  -- The paths that `_assert_no_reparse_components` looks at.
  unfoldable components : String → List String
  unfolding prefixes tail
  components target = prefixes "CodeSmells" (tail (parts target))

  -- `_assert_no_reparse_components`
  pub has_reparse_component : Tree → String → Bool
  unfolding components
  has_reparse_component tree target =
      any_of (λ path. is_link (Dict.get path tree)) (components target)

  -- `lstat` raises NotADirectoryError where something above the target is no directory.
  unfoldable has_file_above : Tree → String → Bool
  unfolding components without_last is_file
  has_file_above tree target =
      any_of (λ path. is_file (Dict.get path tree)) (without_last (components target))

  -- What `lstat` finds, and the hash of a regular file, whose bytes may not be readable.
  unfoldable pub read_found :
      (Operation → Bool) → ConflictPhase → String → Option Node → Outcome TargetState
  read_found fails phase target none = returned missing
  read_found fails phase target (some directory) = returned is_directory
  read_found fails phase target (some (regular bytes)) =
      if fails (read_state phase target)
      then raised (baseline_conflict (lib.name target) reading_state)
      else returned (file (sha256 bytes))
  read_found fails phase target (some _) = returned is_special

  -- `_inspect_target_state`
  unfoldable pub inspect_target_state :
      (Operation → Bool) → ConflictPhase → Tree → String → Outcome TargetState
  unfolding has_reparse_component has_file_above read_found
  inspect_target_state fails phase tree target =
      if has_reparse_component tree target
      then raised (reparse_point target)
      else if has_file_above tree target
      then raised (os_error (read_state phase target))
      else read_found fails phase target (Dict.get target tree)

  -- `_assert_target_matches_baseline`: the exception, if it raises one.
  unfoldable pub assert_target_matches_baseline :
      (Operation → Bool) → ConflictPhase → Tree → Change → Option Failure
  unfolding inspect_target_state same_state
  assert_target_matches_baseline fails phase tree c =
      elim (inspect_target_state fails phase tree c.target) [
        | raised f ↦ some f
        | returned observed ↦
            if same_state observed c.expected
            then none
            else some (baseline_conflict c.relative phase)
      ]
