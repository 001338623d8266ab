-- ===== src/Workspace/Reports.antt =====
-- backend/agent/workspace.py, `public_workspace_apply_failure`: what the browser is told of a failed
-- application. Paths of this machine stay inside.
use text.Mathlib.Text.{starts_with}
use refactor_agent.Common.{
  if◌then◌else◌, Bool-cases, List-cases, length, take, length-take-le, contains, take_text, ℕ, zero,
  suc, ◌≤◌, String, ◌≡◌, refl, ap, subst, ◌≢◌, ◌↔◌, inl, inr, Bool, true, false, not, ◌&&◌, Option,
  none, some, some-injective, List, [], ◌∷◌, map, arith, ◌==◌, eq_iff,
}
use refactor_agent.Paths.{to_slashes}
use refactor_agent.Workspace.{WorkspaceLibrary}

-- `detail`, as a dictionary that may lack any of its keys.
pub record FailureDetail : Type 0 where
  pub code : Option String
  pub phase : Option String
  pub conflicts : List String
  pub rollback_status : Option String
  pub recovery_artifacts : List String

pub record PublicFailure : Type 0 where
  pub code : String
  pub phase : String
  pub conflict_category : String
  pub rollback_status : String
  pub requires_manual_action : Bool
  pub affected_file_count : ℕ
  pub affected_files : List String
  pub recovery_available : Bool
  pub recovery_ids : List String
  pub guidance : String

-- `value or default`, of an optional text.
unfoldable or_default : Option String → String → String
or_default none default = default
or_default (some s) default = if s == "" then default else s

-- `list(dict.fromkeys(xs))`, from the texts seen so far.
pub unique : List String → List String → List String
unfolding contains
unique seen [] = []
unique seen (x ∷ xs) = elim (contains x seen) [
  | true ↦ unique seen xs
  | false ↦ x ∷ unique (x ∷ seen) xs
]

pub guidance_of : String → String
guidance_of status =
    if status == "partial"
    then "应用未能完整恢复；系统未覆盖第三方新修改。请先核对列出的文件与恢复材料，核对前不要重新应用。"
    else if status == "complete"
    then "应用失败但补偿回滚已完成；请解决冲突后重新运行。"
    else "应用在写入前停止；请核对冲突文件后重试。"

unfoldable is_some_text : List String → Bool
is_some_text [] = false
is_some_text (x ∷ xs) = true

unfoldable either_list : List String → List String → List String
either_list [] ys = ys
either_list (x ∷ xs) ys = x ∷ xs

module _ (lib : WorkspaceLibrary) where
  open lib use {sha256, parts, as_posix, is_absolute, casefold, name}

  -- `safe_relative` gives the path, or none.
  unfoldable pub is_safe : String → Bool
  unfolding to_slashes
  is_safe value =
      let candidate = to_slashes value in
      not (is_absolute candidate)
      && not (contains ".." (parts candidate))
      && starts_with (casefold (as_posix candidate)) "codesmells/"

  unfoldable safe_paths : List String → List String
  unfolding is_safe to_slashes
  safe_paths [] = []
  safe_paths (x ∷ xs) =
      let rest = safe_paths xs in if is_safe x then as_posix (to_slashes x) ∷ rest else rest

  -- `sha256(Path(item).name).hexdigest()[:16]`
  unfoldable recovery_id : String → String
  unfolding take_text
  recovery_id item = take_text 16 (sha256 (name item))

  pub affected : FailureDetail → List String → List String
  unfolding unique either_list safe_paths
  affected d changed_files =
      take 20 (unique [] (either_list (safe_paths d.conflicts) (safe_paths changed_files)))

  unfoldable public_rollback_status : Option String → String
  unfolding or_default
  public_rollback_status status =
      let raw = or_default status "not_started" in
      if raw == "not_required" then "not_started" else raw

  unfoldable public_status : FailureDetail → String
  unfolding public_rollback_status
  public_status d = public_rollback_status d.rollback_status

  unfoldable pub public_workspace_apply_failure :
      Option FailureDetail → List String → Option PublicFailure
  unfolding affected public_status or_default recovery_id guidance_of is_some_text
  public_workspace_apply_failure none changed_files = none
  public_workspace_apply_failure (some d) changed_files = some record {
    code = or_default d.code "workspace_apply_failed";
    phase = or_default d.phase "unknown";
    conflict_category = or_default d.code "workspace_apply_failed";
    rollback_status = public_status d;
    requires_manual_action = public_status d == "partial";
    affected_file_count = length (affected d changed_files);
    affected_files = affected d changed_files;
    recovery_available = is_some_text (map recovery_id d.recovery_artifacts);
    recovery_ids = map recovery_id d.recovery_artifacts;
    guidance = guidance_of (public_status d);
  }

  -- The POSIX form of a text with slashes that is not an absolute path, has no part `..`, and stands
  -- below the code root, in whatever case.
  pub record IsSafePath (path : String) : Type 0 where
    pub value : String
    pub relative : is_absolute (to_slashes value) ≡ false
    pub no_parent : contains ".." (parts (to_slashes value)) ≡ false
    pub below : starts_with (casefold path) "codesmells/" ≡ true
    pub shown : as_posix (to_slashes value) ≡ path

  is_safe-IsSafePath :
      (value : String) → is_safe value ≡ true → IsSafePath (as_posix (to_slashes value))
  unfolding is_safe
  is_safe-IsSafePath value h = record {
    value = value;
    relative = ground arith;
    no_parent = ground arith;
    below = ground arith;
    shown = refl;
  }

  -- Of a recovery file, the browser is told 16 characters, at most, of the hash of the file's name.
  abbrev pub IsRecoveryId : List String → String → Type 0
  IsRecoveryId artifacts id =
      (item : String) × (contains item artifacts ≡ true) × (take_text 16 (sha256 (name item)) ≡ id)

  recovery_ids-lem :
      (artifacts : List String) (id : String)
      → contains id (map recovery_id artifacts) ≡ true
      → IsRecoveryId artifacts id
  unfolding contains recovery_id
  recovery_ids-lem [] id h = cc
  recovery_ids-lem (x ∷ xs) id h = elim (Bool-cases (recovery_id x == id)) [
    | inl t ↦ (x, ground (arith, eq_iff x x), (eq_iff (recovery_id x) id).0 t)
    | inr t ↦ let (item, m, e) = recovery_ids-lem xs id (ground arith) in (item, ground arith, e)
  ]

  length-map_ids : (xs : List String) → length (map recovery_id xs) ≡ length xs
  length-map_ids [] = refl
  length-map_ids (x ∷ xs) = ap suc (length-map_ids xs)

  safe_paths-safe :
      (xs : List String) (k : String) → contains k (safe_paths xs) ≡ true → IsSafePath k
  unfolding safe_paths contains
  safe_paths-safe [] k h = cc
  safe_paths-safe (x ∷ xs) k h = elim (Bool-cases (is_safe x)) [
    | inr e ↦ safe_paths-safe xs k (rw (safe_paths, e) at h)
    | inl e ↦ elim (Bool-cases (as_posix (to_slashes x) == k)) [
      | inl t ↦ subst IsSafePath ((eq_iff (as_posix (to_slashes x)) k).0 t) (is_safe-IsSafePath x e)
      | inr t ↦ safe_paths-safe xs k (ground arith)
    ]
  ]

  unique-safe :
      (seen xs : List String) (k : String)
      → contains k (unique seen xs) ≡ true
      → contains k xs ≡ true
  unfolding unique contains
  unique-safe seen [] k h = h
  unique-safe seen (x ∷ xs) k h = elim (Bool-cases (contains x seen)) [
    | inl e ↦ let ih = unique-safe seen xs k (rw (unique, e) at h) in ground arith
    | inr e ↦ elim (Bool-cases (x == k)) [
      | inl t ↦ ground arith
      | inr t ↦ let ih = unique-safe (x ∷ seen) xs k (ground arith) in ground arith
    ]
  ]

  contains-take :
      (n : ℕ) (xs : List String) (k : String) → contains k (take n xs) ≡ true → contains k xs ≡ true
  unfolding contains
  contains-take zero xs k h = cc
  contains-take (suc n) [] k h = h
  contains-take (suc n) (x ∷ xs) k h = ground (arith, contains-take n xs k)

  either_list-safe :
      (xs ys : List String) (k : String)
      → contains k (either_list (safe_paths xs) (safe_paths ys)) ≡ true
      → IsSafePath k
  unfolding either_list
  either_list-safe xs ys k h = elim (List-cases (safe_paths xs)) [
    | inl e ↦ safe_paths-safe ys k (rw (either_list, e) at h)
    | inr (z, zs, e) ↦ safe_paths-safe xs k (rw e (rw (either_list, e) at h))
  ]

  other_status :
      (s : String)
      → (s == "partial") ≡ false
      → (public_rollback_status (some s) == "partial") ≢ true
  unfolding public_rollback_status or_default
  other_status s e h = elim (Bool-cases (s == "")) [
    | inl t ↦
        let empty =
          subst (λ s. (public_rollback_status (some s) == "partial") ≡ true) ((eq_iff s "").0 t)
            h in
        ground arith
    | inr t ↦ elim (Bool-cases (s == "not_required")) [
      | inl u ↦
          let fixed =
            subst (λ s. (public_rollback_status (some s) == "partial") ≡ true)
              ((eq_iff s "not_required").0 u) h in
          ground arith
      | inr u ↦
          let plain : (s == "partial") ≡ true =
            rw (public_rollback_status, or_default, t, u) at h in
          ground arith
    ]
  ]

  status-partial :
      (o : Option String) → ((public_rollback_status o == "partial") ≡ true) ↔ (o ≡ some "partial")
  unfolding public_rollback_status or_default
  status-partial none = (λ h. absurd (ground arith), λ h. absurd (ground arith))
  status-partial (some s) = elim (Bool-cases (s == "partial")) [
    | inl e ↦ rw ((eq_iff s "partial").0 e) (λ h. refl, λ h. refl)
    | inr e ↦ (
      λ h. absurd (other_status s e h),
      λ h. absurd (ground (arith, (eq_iff s "partial").1 (some-injective s "partial" h))),
    )
  ]

  public_status-partial :
      (d : FailureDetail)
      → ((public_status d == "partial") ≡ true) ↔ (d.rollback_status ≡ some "partial")
  unfolding public_status
  public_status-partial d = status-partial d.rollback_status

  -- What the browser is told names at most 20 files, each of them by a path that is not absolute,
  -- has no part `..` and stands below CodeSmells; it counts them, asks for manual action exactly where
  -- the rollback was partial, and names each recovery file, one identifier for one file, by at most
  -- 16 characters of the hash of its name only.
  pub public_workspace_apply_failure-safe :
      (d : FailureDetail) (changed_files : List String) (p : PublicFailure)
      → public_workspace_apply_failure (some d) changed_files ≡ some p
      → ((k : String) → contains k p.affected_files ≡ true → IsSafePath k)
        × (length p.affected_files ≤ 20)
        × (p.affected_file_count ≡ length p.affected_files)
        × ((p.requires_manual_action ≡ true) ↔ (d.rollback_status ≡ some "partial"))
        × ((id : String) → contains id p.recovery_ids ≡ true → IsRecoveryId d.recovery_artifacts id)
        × (length p.recovery_ids ≡ length d.recovery_artifacts)
  unfolding public_workspace_apply_failure affected
  public_workspace_apply_failure-safe d changed_files p h =
      subst
        (λ (p : PublicFailure).
          ((k : String) → contains k p.affected_files ≡ true → IsSafePath k)
          × (length p.affected_files ≤ 20)
          × (p.affected_file_count ≡ length p.affected_files)
          × ((p.requires_manual_action ≡ true) ↔ (d.rollback_status ≡ some "partial"))
          × ((id : String)
              → contains id p.recovery_ids ≡ true
              → IsRecoveryId d.recovery_artifacts id)
          × (length p.recovery_ids ≡ length d.recovery_artifacts))
        (some-injective _ p h)
        (
          λ k m.
              either_list-safe d.conflicts changed_files k
                (unique-safe [] _ k (contains-take 20 _ k m)),
          length-take-le 20 _,
          refl,
          public_status-partial d,
          recovery_ids-lem d.recovery_artifacts,
          length-map_ids d.recovery_artifacts,
        )
