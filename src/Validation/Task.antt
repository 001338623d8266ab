-- ===== src/Validation/Task.antt =====
-- What backend/agent/plans.py has checked of one task when it accepts it.
use refactor_agent.Common.{
  eqb, Bool-cases, length, contains, contains-select, distinct, set_size, IsDistinct, Subset, ◌≤◌,
  String, ◌≡◌, refl, sym, ap, subst, ◌∙◌, ◌⊎◌, inl, inr, false, not, ◌&&◌, List, [], ◌∷◌, arith,
  ◌==◌, eq_iff,
}
use refactor_agent.Plans.{RefactorTask}
use refactor_agent.Paths.{PathError, Checked, canonical_refactor_path, accepted, refused}
use refactor_agent.Validation.{
  PlanError, Validated, PlanLibrary, unknown_of, canonicalize_refactor_path, place_task, check_task,
  valid, invalid,
}

contains-distinct : (k : String) (xs : List String) → contains k (distinct xs) ≡ contains k xs
unfolding contains distinct
contains-distinct k [] = refl
contains-distinct k (x ∷ xs) = elim (Bool-cases (contains x xs)) [
  | inl e ↦ rw e (ground (arith, contains-distinct k xs, eq_iff x k))
  | inr e ↦ rw e (ground (arith, contains-distinct k xs))
]

length-distinct-le : (xs : List String) → length (distinct xs) ≤ length xs
unfolding distinct
length-distinct-le [] = omega arith
length-distinct-le (x ∷ xs) = elim (Bool-cases (contains x xs)) [
  | inl e ↦ rw e (ground (arith, length-distinct-le xs))
  | inr e ↦ rw e (ground (arith, length-distinct-le xs))
]

pub set_size-IsDistinct : (xs : List String) → length xs ≡ set_size xs → IsDistinct xs
unfolding set_size distinct
set_size-IsDistinct [] h = tt
set_size-IsDistinct (x ∷ xs) h = elim (Bool-cases (contains x xs)) [
  | inl e ↦ absurd (ground (arith, length-distinct-le xs, e))
  | inr e ↦ (e, set_size-IsDistinct xs (ground (arith, e)))
]

Subset_of_unknown :
    (known dependencies : List String)
    → unknown_of known dependencies ≡ []
    → Subset dependencies known
unfolding unknown_of contains
Subset_of_unknown known dependencies h k m =
    let c = contains-select (λ d. not (contains d known)) k (distinct dependencies) in
    let e : contains k [] ≡ (contains k dependencies && not (contains k known)) =
      subst (λ xs. contains k xs ≡ (contains k dependencies && not (contains k known))) h
        (c ∙ ap (λ b. b && not (contains k known)) (contains-distinct k dependencies)) in
    ground arith

pub Validated-cases {ℓ} :
    {A : Type ℓ} (v : Validated A) → ((e : PlanError) × (v ≡ invalid e)) ⊎ ((a : A) × (v ≡ valid a))
Validated-cases (invalid e) = inl (e, refl)
Validated-cases (valid a) = inr (a, refl)

Checked-cases {ℓ} :
    {A : Type ℓ} (c : Checked A)
    → ((e : PathError) × (c ≡ refused e)) ⊎ ((a : A) × (c ≡ accepted a))
Checked-cases (refused e) = inl (e, refl)
Checked-cases (accepted a) = inr (a, refl)

List-cases : (xs : List String) → (xs ≡ []) ⊎ ((y : String) × (ys : List String) × (xs ≡ y ∷ ys))
List-cases [] = inl refl
List-cases (y ∷ ys) = inr (y, ys, refl)

-- The task at another path.
abbrev relocated : RefactorTask → String → RefactorTask
relocated t path = record {
  id = t.id;
  title = t.title;
  description = t.description;
  file_path = path;
  dependencies = t.dependencies;
}

module _ (lib : PlanLibrary) where
  open lib use {paths, suffix}
  open paths use {casefold}

  -- The path is what the path policy makes of some text, and ends in ".py".
  abbrev pub IsPlace : String → Type 0
  IsPlace path =
      (given : String) × (canonical_refactor_path paths given ≡ accepted path)
      × (casefold (suffix path) ≡ ".py")

  abbrev pub identities : List RefactorTask → List String
  identities [] = []
  identities (t ∷ ts) = casefold t.file_path ∷ identities ts

  -- What `check_task` has seen to, of the task that it gives.
  abbrev pub IsChecked : List String → List String → RefactorTask → Type 0
  IsChecked known seen u =
      IsDistinct u.dependencies
      × Subset u.dependencies known
      × IsPlace u.file_path
      × (contains (casefold u.file_path) seen ≡ false)

  canonicalize-IsPlace :
      (file_path path : String)
      → canonicalize_refactor_path lib file_path ≡ valid path
      → IsPlace path
  unfolding canonicalize_refactor_path
  canonicalize-IsPlace file_path path h =
      elim (Checked-cases (canonical_refactor_path paths file_path)) [
        | inl (e, r) ↦ absurd (ground (arith, r))
        | inr (p, r) ↦ elim (Bool-cases (casefold (suffix p) == ".py")) [
          | inr n ↦ absurd (ground (arith, r, n))
          | inl y ↦
              let same : p ≡ path = ground (arith, r, y) in
              (file_path, rw (← same) r, rw (← same) ((eq_iff (casefold (suffix p)) ".py").0 y))
        ]
      ]

  place_task-valid :
      (seen : List String) (t u : RefactorTask)
      → place_task lib seen t ≡ valid u
      → (u.id ≡ t.id)
        × (u.dependencies ≡ t.dependencies)
        × IsPlace u.file_path
        × (contains (casefold u.file_path) seen ≡ false)
  unfolding place_task
  place_task-valid seen t u h =
      elim (Validated-cases (canonicalize_refactor_path lib t.file_path)) [
        | inl (e, r) ↦ absurd (ground (arith, r))
        | inr (p, r) ↦ elim (Bool-cases (contains (casefold p) seen)) [
          | inl n ↦ absurd (ground (arith, r, n))
          | inr y ↦
              let made : valid (relocated t p) ≡ valid u = ground (arith, r, y) in
              let same : relocated t p ≡ u = ground arith in
              subst
                (λ v.
                  (v.id ≡ t.id)
                  × (v.dependencies ≡ t.dependencies)
                  × IsPlace v.file_path
                  × (contains (casefold v.file_path) seen ≡ false))
                same (refl, refl, canonicalize-IsPlace t.file_path p r, y)
        ]
      ]

  pub check_task-valid :
      (known seen : List String) (t u : RefactorTask)
      → check_task lib known seen t ≡ valid u
      → (u.id ≡ t.id) × IsChecked known seen u
  unfolding check_task
  check_task-valid known seen t u h =
      elim (Bool-cases (eqb (length t.dependencies) (set_size t.dependencies))) [
        | inr n ↦ absurd (ground (arith, n))
        | inl once ↦ elim (Bool-cases (contains t.id t.dependencies)) [
          | inl n ↦ absurd (ground (arith, n, once))
          | inr own ↦ elim (List-cases (unknown_of known t.dependencies)) [
            | inr (d, ds, e) ↦ absurd (ground (arith, own, once, e))
            | inl none_unknown ↦
                let placed : place_task lib seen t ≡ valid u =
                  ground (arith, own, once, none_unknown) in
                let (id_same, needs_same, place, free) = place_task-valid seen t u placed in
                (
                  id_same,
                  (
                    subst IsDistinct (sym needs_same)
                        (set_size-IsDistinct t.dependencies (ground (arith, once))),
                    subst (λ ds. Subset ds known) (sym needs_same)
                        (Subset_of_unknown known t.dependencies none_unknown),
                    place,
                    free,
                  ),
                )
          ]
        ]
      ]
