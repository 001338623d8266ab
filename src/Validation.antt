-- ===== src/Validation.antt =====
-- backend/agent/plans.py: the plan that the model writes is checked before the graph takes it. The
-- regular expression that finds the plan's block, the JSON decoder, pydantic's `model_validate` (it
-- is given the validator of an id) and `Path.suffix` are parameters. An error is a value that holds
-- what its message is made of.
pub mod Task
pub mod Soundness
use Prim.Native.Char.{Char, code}
use refactor_agent.Common.{
  leb, eqb, if◌then◌else◌, length, select, contains, distinct, set_size, ℕ, zero, suc, String, ◌⊎◌,
  inl, inr, Bool, true, false, not, ◌&&◌, ◌||◌, Option, none, some, List, [], ◌∷◌, ◌==◌,
}
use refactor_agent.Paths.{PathError, PathLibrary, canonical_refactor_path, accepted, refused}
use refactor_agent.Plans.{RefactorTask, RefactorPlan, task_ids, assert_acyclic}
use refactor_agent.Reviews.{Json}

pub data PlanError : Type 0 where
  no_block several_blocks : PlanError
  -- the message of `json.loads` or of pydantic
  not_read : String → PlanError
  repeated_ids cyclic : PlanError
  repeated_dependencies own_dependency : String → PlanError
  unknown_dependencies : String → List String → PlanError
  bad_path : PathError → PlanError
  not_python : PlanError
  repeated_path : String → PlanError
  -- KeyError, which the source does not catch here
  key_error : PlanError

pub data Validated {ℓ} (A : Type ℓ) : Type ℓ where
  valid : A → Validated A
  invalid : PlanError → Validated A

-- What the source takes from `re`, `json`, pydantic and `pathlib`.
pub record PlanLibrary : Type 0 where
  pub paths : PathLibrary
  pub suffix : String → String
  pub plan_blocks : String → List String
  pub loads : String → Json ⊎ String
  pub model_validate : (String → Bool) → Json → RefactorPlan ⊎ String

is_lowercase : Char → Bool
is_lowercase c = leb b'a' (code c) && leb (code c) b'z'

-- `[a-z0-9_-]`
is_id_character : Char → Bool
unfolding is_lowercase
is_id_character c =
    is_lowercase c
    || (leb b'0' (code c) && leb (code c) b'9')
    || eqb (code c) b'_'
    || eqb (code c) b'-'

-- `[a-z0-9_-]{0,n}`, to the end of the text.
is_id_rest : ℕ → String → Bool
unfolding is_id_character
is_id_rest n String.[] = true
is_id_rest zero (String.◌∷◌ c s) = false
is_id_rest (suc n) (String.◌∷◌ c s) = is_id_character c && is_id_rest n s

-- `TASK_ID_PATTERN.fullmatch(value)`
unfoldable matches_task_id : String → Bool
unfolding is_id_rest is_lowercase
matches_task_id String.[] = false
matches_task_id (String.◌∷◌ c s) = is_lowercase c && is_id_rest 63 s

abbrev pub reserved_task_ids : List String
reserved_task_ids = "architect_task" ∷ "reviewer_task" ∷ []

-- Whether `validate_task_id` gives the id back.
unfoldable validate_task_id : String → Bool
unfolding matches_task_id
validate_task_id value = matches_task_id value && not (contains value reserved_task_ids)

-- `set(dependencies) - known_ids`
pub unknown_of : List String → List String → List String
unknown_of known dependencies = select (λ d. not (contains d known)) (distinct dependencies)

module _ (lib : PlanLibrary) where
  open lib use {paths, suffix, plan_blocks, loads, model_validate}
  open paths use {casefold}

  pub canonicalize_refactor_path : String → Validated String
  canonicalize_refactor_path file_path = elim (canonical_refactor_path paths file_path) [
    | refused e ↦ invalid (bad_path e)
    | accepted path ↦ if casefold (suffix path) == ".py" then valid path else invalid not_python
  ]

  -- The end of the loop's body: the path of the task, and the task with it.
  pub place_task : List String → RefactorTask → Validated RefactorTask
  unfolding canonicalize_refactor_path
  place_task seen_paths t = elim (canonicalize_refactor_path t.file_path) [
    | invalid e ↦ invalid e
    | valid path ↦
        if contains (casefold path) seen_paths
        then invalid (repeated_path path)
        else valid record {
          id = t.id;
          title = t.title;
          description = t.description;
          file_path = path;
          dependencies = t.dependencies;
        }
  ]

  -- The body of the loop over the tasks.
  pub check_task : List String → List String → RefactorTask → Validated RefactorTask
  unfolding place_task unknown_of
  check_task known_ids seen_paths t =
      if not (eqb (length t.dependencies) (set_size t.dependencies))
      then invalid (repeated_dependencies t.id)
      else if contains t.id t.dependencies
      then invalid (own_dependency t.id)
      else elim (unknown_of known_ids t.dependencies) [
        | d ∷ ds ↦ invalid (unknown_dependencies t.id (d ∷ ds))
        | [] ↦ place_task seen_paths t
      ]

  -- The loop over the tasks.
  pub check_tasks : List String → List String → List RefactorTask → Validated (List RefactorTask)
  unfolding check_task
  check_tasks known_ids seen_paths [] = valid []
  check_tasks known_ids seen_paths (t ∷ ts) = elim (check_task known_ids seen_paths t) [
    | invalid e ↦ invalid e
    | valid u ↦ elim (check_tasks known_ids (casefold u.file_path ∷ seen_paths) ts) [
      | invalid e ↦ invalid e
      | valid us ↦ valid (u ∷ us)
    ]
  ]

  -- `_assert_acyclic(normalized_tasks)` and the plan that is returned.
  pub close_plan : String → List RefactorTask → Validated RefactorPlan
  unfolding assert_acyclic
  close_plan summary tasks = elim (assert_acyclic tasks) [
    | none ↦ invalid key_error
    | some false ↦ invalid cyclic
    | some true ↦ valid record { summary = summary; tasks = tasks }
  ]

  -- `validate_refactor_plan`, from the value that pydantic has parsed.
  unfoldable pub normalize_plan : RefactorPlan → Validated RefactorPlan
  unfolding check_tasks close_plan
  normalize_plan parsed =
      if not (eqb (length (task_ids parsed.tasks)) (set_size (task_ids parsed.tasks)))
      then invalid repeated_ids
      else elim (check_tasks (task_ids parsed.tasks) [] parsed.tasks) [
        | invalid e ↦ invalid e
        | valid tasks ↦ close_plan parsed.summary tasks
      ]

  unfoldable validate_refactor_plan : Json → Validated RefactorPlan
  unfolding normalize_plan validate_task_id
  validate_refactor_plan value = elim (model_validate validate_task_id value) [
    | inr message ↦ invalid (not_read message)
    | inl parsed ↦ normalize_plan parsed
  ]

  unfoldable parse_refactor_plan : String → Validated RefactorPlan
  unfolding validate_refactor_plan
  parse_refactor_plan message_text = elim (plan_blocks message_text) [
    | [] ↦ invalid no_block
    | b ∷ c ∷ bs ↦ invalid several_blocks
    | b ∷ [] ↦ elim (loads b) [
      | inr message ↦ invalid (not_read message)
      | inl raw_plan ↦ validate_refactor_plan raw_plan
    ]
  ]

  -- The loop of `find_plan_task_id`.
  unfoldable task_at : String → List RefactorTask → Option String
  task_at identity [] = none
  task_at identity (t ∷ ts) =
      if casefold t.file_path == identity then some t.id else task_at identity ts

  unfoldable find_plan_task_id : Option RefactorPlan → String → Option String
  unfolding canonicalize_refactor_path task_at
  find_plan_task_id none file_path = none
  find_plan_task_id (some plan) file_path = elim (canonicalize_refactor_path file_path) [
    | invalid e ↦ none
    | valid path ↦ task_at (casefold path) plan.tasks
  ]
