-- ===== src/Paths.antt =====
-- backend/agent/path_policy.py: the paths that the agents may touch. `Path.resolve` reads the file
-- system: it is a parameter that gives the parts of the absolute path that a text leads to, a
-- relative text being taken from the project's root. `is_absolute`, `strip` and `casefold` are
-- parameters too.
pub mod Boundary
use Prim.Native.Char.{Char, code}
use Prim.Native.String.{◌++◌ as text_append}
use text.Mathlib.Text.{starts_with}
use refactor_agent.Common.{
  eqb, if◌then◌else◌, any_of, String, Bool, true, false, ◌||◌, Option, none, some, List, [], ◌∷◌,
  ◌==◌,
}
use refactor_agent.Messages.{join_with}

pub data PathError : Type 0 where
  empty_path absolute_path outside_repository outside_workspace protected_path : PathError

pub data Checked {ℓ} (A : Type ℓ) : Type ℓ where
  accepted : A → Checked A
  refused : PathError → Checked A

-- What the source takes from `pathlib` and `str`, and the two roots, resolved.
pub record PathLibrary : Type 0 where
  pub resolve : String → List String
  pub is_absolute : String → Bool
  pub strip : String → String
  pub casefold : String → String
  pub project_root : List String
  pub refactor_root : List String

slash : Char → Char
slash c = if eqb (code c) b'\\' then "/" else c

-- `text.replace("\\", "/")`
unfoldable pub to_slashes : String → String
unfolding slash
to_slashes String.[] = ""
to_slashes (String.◌∷◌ c s) = String.◌∷◌ (slash c) (to_slashes s)

-- `path.relative_to(root)`: none, where the path is not below the root.
unfoldable pub relative_to : List String → List String → Option (List String)
relative_to [] path = some path
relative_to (r ∷ root) [] = none
relative_to (r ∷ root) (p ∷ path) =
    let rest = relative_to root path in if r == p then rest else none

abbrev pub protected_path_prefixes : List String
protected_path_prefixes = "backend/behavior_tests" ∷ "codesmells/tests" ∷ []

-- `identity == prefix or identity.startswith(f"{prefix}/")`
unfoldable is_under : String → String → Bool
is_under identity prefix = identity == prefix || starts_with identity (text_append prefix "/")

module _ (lib : PathLibrary) where
  open lib use {resolve, is_absolute, strip, casefold, project_root, refactor_root}

  -- `Path(file_path.strip().replace("\\", "/"))`
  pub requested : String → String
  unfolding to_slashes
  requested file_path = to_slashes (strip file_path)

  -- `not file_path or not file_path.strip()`
  pub is_blank : String → Bool
  is_blank file_path = file_path == "" || strip file_path == ""

  unfoldable canonical_repository_path : String → Checked String
  unfolding requested is_blank relative_to join_with
  canonical_repository_path file_path =
      if is_blank file_path
      then refused empty_path
      else elim (relative_to project_root (resolve (requested file_path))) [
        | none ↦ refused outside_repository
        | some parts ↦ accepted (join_with "/" parts)
      ]

  unfoldable pub is_protected_path : String → Checked Bool
  unfolding canonical_repository_path is_under
  is_protected_path file_path = elim (canonical_repository_path file_path) [
    | refused e ↦ refused e
    | accepted path ↦
        accepted (any_of (λ prefix. is_under (casefold path) prefix) protected_path_prefixes)
  ]

  -- The last test of `canonical_refactor_path`.
  pub unless_protected : String → Checked String
  unfolding is_protected_path
  unless_protected normalized = elim (is_protected_path normalized) [
    | refused e ↦ refused e
    | accepted true ↦ refused protected_path
    | accepted false ↦ accepted normalized
  ]

  -- `resolved.relative_to(root)` of a path below the refactor root.
  pub within_root : List String → Checked String
  unfolding unless_protected relative_to join_with
  within_root resolved = elim (relative_to project_root resolved) [
    | none ↦ refused outside_repository
    | some parts ↦ unless_protected (join_with "/" parts)
  ]

  unfoldable pub canonical_refactor_path : String → Checked String
  unfolding within_root requested is_blank
  canonical_refactor_path file_path =
      if is_blank file_path
      then refused empty_path
      else if is_absolute (requested file_path)
      then refused absolute_path
      else elim (relative_to refactor_root (resolve (requested file_path))) [
        | none ↦ refused outside_workspace
        | some parts ↦ within_root (resolve (requested file_path))
      ]
