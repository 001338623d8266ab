-- ===== src/Plans/Ordering.antt =====
-- Orders of a plan's tasks in which each comes behind its dependencies (backend/agent/plans.py).
use refactor_agent.Common.{
  Bool-cases, select, contains, contains-select, contains-cons_self, contains-cons, IsDistinct,
  Subset, String, ◌≡◌, refl, sym, ◌∙◌, inl, inr, Bool, true, ◌||◌, List, [], ◌∷◌, ◌++◌, arith, ◌==◌,
  eq_iff,
}
use refactor_agent.Plans.{RefactorTask, task_ids, Among}

-- No two tasks share an id.
abbrev pub HasUniqueIds : List RefactorTask → Type 0
HasUniqueIds tasks = IsDistinct (task_ids tasks)

module _ (tasks : List RefactorTask) where
  -- Every dependency of the task with this id stands in the list.
  abbrev pub NeedsMet : List String → String → Type 0
  NeedsMet seen id =
      (t : RefactorTask)
      → Among t tasks
      → t.id ≡ id
      → (d : String) → contains d t.dependencies ≡ true
      → contains d seen ≡ true

  -- Each id of the second list has its dependencies in the first list or before it in the second.
  abbrev pub IsOrdered : List String → List String → Type 0
  IsOrdered seen [] = Unit
  IsOrdered seen (id ∷ ids) = NeedsMet seen id × IsOrdered (id ∷ seen) ids

pub Among-contains :
    (t : RefactorTask) (tasks : List RefactorTask)
    → Among t tasks
    → contains t.id (task_ids tasks) ≡ true
unfolding contains task_ids
Among-contains t [] m = absurd m
Among-contains t (u ∷ us) (inl e) = rw (← e) (contains-cons_self t.id (task_ids us))
Among-contains t (u ∷ us) (inr m) = contains-cons u.id t.id (task_ids us) (Among-contains t us m)

pub task_of :
    (tasks : List RefactorTask) (id : String)
    → contains id (task_ids tasks) ≡ true
    → (t : RefactorTask) × Among t tasks × (t.id ≡ id)
unfolding contains task_ids
task_of [] id h = cc
task_of (t ∷ ts) id h = elim (Bool-cases (t.id == id)) [
  | inl e ↦ (t, inl refl, (eq_iff t.id id).0 e)
  | inr e ↦ let (u, m, named) = task_of ts id (ground arith) in (u, inr m, named)
]

-- In a plan with unique ids, the id tells the task.
pub Among-unique :
    (t u : RefactorTask) (tasks : List RefactorTask)
    → HasUniqueIds tasks
    → Among t tasks
    → Among u tasks
    → t.id ≡ u.id
    → t ≡ u
unfolding task_ids
Among-unique t u [] d m n e = absurd m
Among-unique t u (v ∷ vs) d (inl m) (inl n) e = m ∙ sym n
Among-unique t u (v ∷ vs) d (inl m) (inr n) e =
    let k : contains v.id (task_ids vs) ≡ true = rw (← m) (rw e (Among-contains u vs n)) in
    absurd (ground (arith, d.0))
Among-unique t u (v ∷ vs) d (inr m) (inl n) e =
    let k : contains v.id (task_ids vs) ≡ true = rw (← n) (rw (← e) (Among-contains t vs m)) in
    absurd (ground (arith, d.0))
Among-unique t u (v ∷ vs) d (inr m) (inr n) e = Among-unique t u vs d.1 m n e

module _ (tasks : List RefactorTask) where
  pub IsOrdered-snoc :
      (seen ids : List String) (id : String)
      → IsOrdered tasks seen ids
      → ((more : List String)
          → ((k : String) → (contains k seen || contains k ids) ≡ true → contains k more ≡ true)
          → NeedsMet tasks more id)
      → IsOrdered tasks seen (ids ++ id ∷ [])
  unfolding contains
  IsOrdered-snoc seen [] id o needs = (needs seen (λ k h. ground arith), tt)
  IsOrdered-snoc seen (x ∷ xs) id o needs = (
    o.0,
    IsOrdered-snoc (x ∷ seen) xs id o.1 (λ more sub. needs more (λ k h. sub k (ground arith))),
  )

  pub NeedsMet-mono :
      (xs ys : List String) (id : String)
      → Subset xs ys
      → NeedsMet tasks xs id
      → NeedsMet tasks ys id
  NeedsMet-mono xs ys id sub n t m e d dep = sub d (n t m e d dep)

  -- The needs of a listed id are met within the list.
  pub IsOrdered-NeedsMet :
      (seen ids all : List String) (id : String)
      → IsOrdered tasks seen ids
      → Subset seen all
      → Subset ids all
      → contains id ids ≡ true
      → NeedsMet tasks all id
  unfolding contains
  IsOrdered-NeedsMet seen [] all id o s i m = cc
  IsOrdered-NeedsMet seen (x ∷ xs) all id o s i m = elim (Bool-cases (x == id)) [
    | inl e ↦ rw (← (eq_iff x id).0 e) (NeedsMet-mono seen all x s o.0)
    | inr e ↦
        IsOrdered-NeedsMet (x ∷ seen) xs all id o.1
          (λ k h. elim (Bool-cases (x == k)) [
            | inl f ↦ i k (ground arith)
            | inr f ↦ s k (ground arith)
          ])
          (λ k h. i k (ground arith)) (ground arith)
  ]

  -- Taking out the ids of a set that is closed downstream keeps the order.
  pub IsOrdered-select :
      (p : String → Bool) (seen ids : List String)
      → ((t : RefactorTask) (d : String)
          → Among t tasks
          → contains d t.dependencies ≡ true
          → p t.id ≡ true
          → p d ≡ true)
      → IsOrdered tasks seen ids
      → IsOrdered tasks (select p seen) (select p ids)
  unfolding select
  IsOrdered-select p seen [] up o = tt
  IsOrdered-select p seen (x ∷ xs) up o =
      let rest = IsOrdered-select p (x ∷ seen) xs up o.1 in
      elim (Bool-cases (p x)) [
        | inl e ↦ rw e (
          (λ t m i d dep. contains-select p d seen ∙ rw (o.0 t m i d dep) (up t d m dep (rw i e))),
          rw e at rest,
        )
        | inr e ↦ rw e (rw e at rest)
      ]
