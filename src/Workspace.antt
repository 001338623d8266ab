-- ===== src/Workspace.antt =====
-- backend/agent/workspace.py, the isolated workspace of a run: what stands on the disk, the library
-- calls the module makes, the errors it raises, and the two snapshots as sets of files.
--
-- A tree holds what stands below a root at each path, `/` between its parts. The bytes of a file
-- are a text. SHA-256, `pathlib`, `casefold` and `json.dumps` are parameters.
pub mod Targets
pub mod Transaction
pub mod Compensation
pub mod Manifest
pub mod Apply
pub mod Approval
pub mod Nodes
pub mod Commits
pub mod Restoration
pub mod Preparation
pub mod Saved
pub mod Loops
pub mod Transacted
pub mod Planning
pub mod Differences
pub mod Gate
pub mod Refinement
pub mod Guards
pub mod Foreign
pub mod Endings
pub mod Creation
pub mod Reports
pub mod Sections
pub mod Prepared
use text.Mathlib.Text.{starts_with}
use refactor_agent.Common.{
  if◌then◌else◌, select, any_of, distinct, sorted, ℕ, String, ◌≡◌, refl, ap, ◌⊎◌, inl, inr, Bool,
  true, false, not, ◌||◌, Option, none, some, List, [], ◌∷◌, ◌++◌, ◌==◌, eq_iff,
}
use refactor_agent.Dict
use refactor_agent.Dict.{Dict}
use refactor_agent.Paths.{PathError, PathLibrary, is_protected_path, accepted, refused}

-- A directory entry: a regular file with its bytes, a directory, a device or the like, or a
-- symbolic link or junction.
pub data Node : Type 0 where
  regular : String → Node
  directory special link : Node

abbrev pub Tree : Type 0
Tree = Dict Node

abbrev pub Files : Type 0
Files = Dict String

-- The snapshots of one run, and all that the module touches.
pub record Snapshots : Type 0 where
  pub baseline : Tree
  pub working : Tree

pub record Disk : Type 0 where
  pub source : Tree
  pub workspaces : Dict Snapshots

-- `WorkspaceFileSnapshot`
pub record WorkspaceFileSnapshot : Type 0 where
  pub path : String
  pub size_bytes : ℕ
  pub sha256 : String

pub record WorkspaceLibrary : Type 0 where
  pub sha256 : String → String
  -- `PurePosixPath(text)`: its parts, `as_posix()`, `is_absolute()`, `suffix` and `name`.
  pub parts : String → List String
  pub as_posix : String → String
  pub is_absolute : String → Bool
  pub suffix : String → String
  pub name : String → String
  pub casefold : String → String
  -- `os.path.normcase(os.path.abspath(PROJECT_ROOT / text))`, by parts.
  pub abspath : String → List String
  pub byte_length : String → ℕ
  pub dumps : List WorkspaceFileSnapshot → String
  pub paths : PathLibrary

-- `BaselineConflictError`: where the files were compared.
pub data ConflictPhase : Type 0 where
  full_preflight preflight before_replacing reading_state : ConflictPhase

-- The two copies that a new workspace is made of.
pub data Copying : Type 0 where
  to_baseline to_working : Copying

-- A temporary file of a transaction, by the file that it was made for.
pub data Temp : Type 0 where
  prepared_temp backup_temp : String → Temp

-- What the operating system is asked to do, and may refuse.
pub data Operation : Type 0 where
  read_state : ConflictPhase → String → Operation
  make_directory write_prepared write_backup replace move_away : String → Operation
  rename_backup restore remove remove_empty : String → Operation
  unlink_temp : Temp → Operation
  copy_file : Copying → String → Operation
  make_workspace_root remove_workspace : Operation

-- The exceptions: the kinds of `WorkspaceError`, `BaselineConflictError`, an exception of the
-- operating system and one that a hook raised.
pub data Failure : Type 0 where
  missing_workspace illegal_workspace_id no_code_snapshot snapshot_has_link : Failure
  illegal_relative_path not_code_path : Failure
  case_conflict protected_change identity_changed outside_code reparse_point : String → Failure
  path_policy : PathError → Failure
  baseline_tampered working_changed not_reviewed not_approved : Failure
  diff_too_long nothing_changed user_rejected apply_failed : Failure
  undecodable special_file : String → Failure
  workspace_exists : Failure
  evidence_invalid : List String → Failure
  baseline_conflict : String → ConflictPhase → Failure
  os_error : Operation → Failure
  hook_error : Failure

pub data Outcome {ℓ} (A : Type ℓ) : Type ℓ where
  returned : A → Outcome A
  raised : Failure → Outcome A

pub Outcome-cases {ℓ} :
    {A : Type ℓ} (o : Outcome A) → ((f : Failure) × (o ≡ raised f)) ⊎ ((a : A) × (o ≡ returned a))
Outcome-cases (raised f) = inl (f, refl)
Outcome-cases (returned a) = inr (a, refl)

pub returned-injective {ℓ} : {A : Type ℓ} (a b : A) → returned a ≡ returned b → a ≡ b
returned-injective a b e = ap (λ (o : Outcome _). elim o [ returned x ↦ x | raised f ↦ a ]) e

-- What returns after a call has the call's value.
pub returned_through {ℓ κ} :
    {A : Type ℓ} {B : Type κ} (o : Outcome A) (next : A → Outcome B) (b : B)
    → elim o [ raised f ↦ raised f | returned a ↦ next a ] ≡ returned b
    → (a : A) × (o ≡ returned a) × (next a ≡ returned b)
returned_through (raised f) next b h = cc
returned_through (returned a) next b h = (a, refl, h)

pub returned_unless {ℓ} :
    {A : Type ℓ} (o : Option Failure) (a b : A)
    → elim o [ some f ↦ raised f | none ↦ returned a ] ≡ returned b
    → (o ≡ none) × (a ≡ b)
returned_unless none a b h = (refl, returned-injective a b h)
returned_unless (some f) a b h = cc

pub passed {ℓ} :
    {A : Type ℓ} (o : Option Failure) (next : Outcome A) (b : A)
    → elim o [ some f ↦ raised f | none ↦ next ] ≡ returned b
    → (o ≡ none) × (next ≡ returned b)
passed none next b h = (refl, h)
passed (some f) next b h = cc

-- `optional == optional`
pub same_text : Option String → Option String → Bool
same_text none none = true
same_text none (some t) = false
same_text (some s) none = false
same_text (some s) (some t) = s == t

pub same_text_sound : (a b : Option String) → same_text a b ≡ true → a ≡ b
unfolding same_text
same_text_sound none none h = refl
same_text_sound none (some t) h = cc
same_text_sound (some s) none h = cc
same_text_sound (some s) (some t) h = rw ((eq_iff s t).0 h)

pub same_text_refl : (a : Option String) → same_text a a ≡ true
unfolding same_text
same_text_refl none = refl
same_text_refl (some s) = (eq_iff s s).1 refl

pub keys {ℓ} : {V : Type ℓ} → Dict V → List String
keys [] = []
keys ((k, v) ∷ d) = k ∷ keys d

-- The keys, of one dictionary or the other, under which they differ, in order:
-- `sorted(k for k in set(d) | set(e) if d.get(k) != e.get(k))`.
unfoldable pub differing : Files → Files → List String
unfolding keys same_text
differing d e =
    select (λ k. not (same_text (Dict.get k d) (Dict.get k e)))
      (sorted (distinct (keys d ++ keys e)))

-- `d == e`
pub same_dict : Files → Files → Bool
unfolding differing
same_dict d e = elim (differing d e) [ [] ↦ true | k ∷ ks ↦ false ]

pub is_ignored_part : String → Bool
is_ignored_part part = part == "__pycache__" || part == ".pytest_cache"

-- The parts of a path below its first part, the code root.
pub tail : List String → List String
tail [] = []
tail (p ∷ ps) = ps

module _ (lib : WorkspaceLibrary) where
  open lib use {sha256, parts, as_posix, is_absolute, suffix, name, casefold}

  unfoldable is_ignored_file : String → Bool
  is_ignored_file path =
      casefold (suffix path) == ".pyc"
      || name path == ".coverage"
      || starts_with (name path) ".coverage."

  -- What `rglob` lists below the code root, without what is ignored.
  unfoldable iter_entries : Tree → Outcome Files
  unfolding is_ignored_part is_ignored_file tail
  iter_entries [] = returned []
  iter_entries ((path, node) ∷ tree) =
      let rest = iter_entries tree in
      if not (starts_with path "CodeSmells/") || any_of is_ignored_part (tail (parts path))
      then rest
      else elim node [
        | link ↦ raised snapshot_has_link
        | regular bytes ↦ if is_ignored_file path then rest else elim rest [
          | raised f ↦ raised f
          | returned files ↦ returned ((path, bytes) ∷ files)
        ]
        | _ ↦ rest
      ]

  -- `_iter_snapshot_files`
  unfoldable pub iter_snapshot_files : Tree → Outcome Files
  unfolding iter_entries
  iter_snapshot_files tree = elim (Dict.get "CodeSmells" tree) [
    | some directory ↦ iter_entries tree
    | _ ↦ raised no_code_snapshot
  ]

  unfoldable hash_files : List String → Files → Files
  hash_files [] files = []
  hash_files (k ∷ ks) files =
      let rest = hash_files ks files in
      elim (Dict.get k files) [ none ↦ rest | some bytes ↦ (k, sha256 bytes) ∷ rest ]

  -- `{relative: sha256 for relative, path in sorted(files.items())}`
  pub hashes_of : Files → Files
  unfolding hash_files keys
  hashes_of files = hash_files (sorted (keys files)) files

  -- `_hash_snapshot`
  pub hash_snapshot : Tree → Outcome Files
  unfolding iter_snapshot_files hashes_of
  hash_snapshot tree = elim (iter_snapshot_files tree) [
    | raised f ↦ raised f
    | returned files ↦ returned (hashes_of files)
  ]

  pub refuse_protected : List String → Option Failure
  refuse_protected [] = none
  refuse_protected (k ∷ ks) =
      let rest = refuse_protected ks in
      elim (is_protected_path lib.paths k) [
        | refused e ↦ some (path_policy e)
        | accepted true ↦ some (protected_change k)
        | accepted false ↦ rest
      ]

  -- `_assert_no_protected_changes`: the exception, if it raises one.
  pub assert_no_protected_changes : Files → Files → Option Failure
  unfolding refuse_protected differing
  assert_no_protected_changes baseline_files final_files =
      refuse_protected (differing baseline_files final_files)

  -- `workspace_changed_paths`, of the two snapshots of the run.
  unfoldable pub workspace_changed_paths : Snapshots → Outcome (List String)
  unfolding iter_snapshot_files assert_no_protected_changes differing
  workspace_changed_paths w = elim (iter_snapshot_files w.baseline) [
    | raised f ↦ raised f
    | returned baseline_files ↦ elim (iter_snapshot_files w.working) [
      | raised f ↦ raised f
      | returned final_files ↦ elim (assert_no_protected_changes baseline_files final_files) [
        | some f ↦ raised f
        | none ↦ returned (differing baseline_files final_files)
      ]
    ]
  ]
