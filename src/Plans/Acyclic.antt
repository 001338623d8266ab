-- ===== src/Plans/Acyclic.antt =====
-- The loop of `_assert_acyclic` of backend/agent/plans.py: what holds at each round.
use refactor_agent.Common.{
  eqb, if◌then◌else◌, Bool-cases, ℤ, is_zero, pos, length, contains, contains-append,
  contains-cons_self, contains-cons, distinct, IsDistinct, Subset, IsDistinct-snoc, ℕ, suc, String,
  ◌≡◌, refl, sym, ap, subst, ◌∙◌, inl, inr, true, false, ◌&&◌, ◌||◌, some, List, [], ◌∷◌, ◌++◌,
  arith, eq_iff,
}
use refactor_agent.Dict
use refactor_agent.Dict.{Dict}
use refactor_agent.Plans.{RefactorTask, task_ids, Among, lower}
use refactor_agent.Plans.Ordering.{
  HasUniqueIds, IsOrdered, Among-contains, task_of, Among-unique, IsOrdered-snoc,
}
use refactor_agent.Plans.Kahn.{users, users-Among, Among-users, HasKey}

-- What the loop of `validate_refactor_plan` has checked before: unique ids, and of each task
-- dependencies that are of the plan and named once.
pub record IsLinked (tasks : List RefactorTask) : Type 0 where
  pub unique : HasUniqueIds tasks
  pub named_once : (t : RefactorTask) → Among t tasks → IsDistinct t.dependencies
  pub known : (t : RefactorTask) → Among t tasks → Subset t.dependencies (task_ids tasks)

-- The dependencies that are not visited yet.
abbrev pub open_count : List String → List String → ℕ
open_count [] done = 0
open_count (d ∷ ds) done = if contains d done then open_count ds done else suc (open_count ds done)

pub open_count-start : (ds : List String) → open_count ds [] ≡ length ds
unfolding contains
open_count-start [] = refl
open_count-start (d ∷ ds) = ap suc (open_count-start ds)

pub open_count-zero :
    (ds done : List String) (d : String)
    → open_count ds done ≡ 0
    → contains d ds ≡ true
    → contains d done ≡ true
unfolding contains
open_count-zero [] done d h m = cc
open_count-zero (x ∷ ds) done d h m = ground (arith, open_count-zero ds done d, eq_iff x d)

pub open_count-done : (ds done : List String) → Subset ds done → open_count ds done ≡ 0
unfolding contains
open_count-done [] done s = refl
open_count-done (x ∷ ds) done s =
    rw (s x (contains-cons_self x ds))
      (open_count-done ds done (λ k m. s k (contains-cons x k ds m)))

-- Visiting one more id opens the way of exactly the tasks that name it.
open_count-other :
    (ds done : List String) (id : String)
    → contains id ds ≡ false
    → open_count ds (done ++ id ∷ []) ≡ open_count ds done
unfolding contains
open_count-other [] done id h = refl
open_count-other (x ∷ ds) done id h =
    ground (
      arith,
      contains-append x done (id ∷ []),
      open_count-other ds done id,
      eq_iff id x,
      eq_iff x id,
    )

open_count-visit :
    (ds done : List String) (id : String)
    → IsDistinct ds
    → contains id ds ≡ true
    → contains id done ≡ false
    → open_count ds done ≡ suc (open_count ds (done ++ id ∷ []))
unfolding contains
open_count-visit [] done id u m f = cc
open_count-visit (x ∷ ds) done id u m f = ground (
  arith,
  contains-append x done (id ∷ []),
  open_count-visit ds done id,
  open_count-other ds done id,
  eq_iff id x,
  eq_iff x id,
  u,
)

-- The state of the loop, with the visited ids in their order.
pub record Inv (tasks : List RefactorTask) (done ready : List String) (degree : Dict.Dict ℤ)
    : Type 0 where
  pub done_once : IsDistinct done
  pub ready_once : IsDistinct ready
  pub apart : (k : String) → contains k ready ≡ true → contains k done ≡ false
  pub done_known : Subset done (task_ids tasks)
  pub ready_known : Subset ready (task_ids tasks)
  pub degrees_open :
      (t : RefactorTask)
      → Among t tasks
      → Dict.get t.id degree ≡ some (pos (open_count t.dependencies done))
  -- a task is visited or ready as soon as its dependencies are visited, and not before
  pub free :
      (t : RefactorTask)
      → Among t tasks
      → (contains t.id ready || contains t.id done) ≡ eqb (open_count t.dependencies done) 0
  pub ordered : IsOrdered tasks [] done

module _ (tasks : List RefactorTask) (l : IsLinked tasks) where
  module _ (done ready : List String) (id : String) (degree : Dict.Dict ℤ)
      (v : Inv tasks done (id ∷ ready) degree) where
    id-Task : (t : RefactorTask) × Among t tasks × (t.id ≡ id)
    id-Task = task_of tasks id (v.ready_known id (contains-cons_self id ready))

    id-undone : contains id done ≡ false
    id-undone = v.apart id (contains-cons_self id ready)

    -- The ids that depend on the visited one are neither visited nor ready.
    pub user-waits :
        (k : String)
        → contains k (users id tasks) ≡ true
        → (contains k (id ∷ ready) ≡ false) × (contains k done ≡ false)
    user-waits k m =
        let (t, among, named, dep) = users-Among id k tasks m in
        let more = open_count-visit t.dependencies done id (l.named_once t among) dep id-undone in
        let f = v.free t among in
        subst (λ x. (contains x (id ∷ ready) ≡ false) × (contains x done ≡ false)) named
          (ground arith, ground arith)

    pub users-HasKey : (k : String) → contains k (users id tasks) ≡ true → HasKey k degree
    users-HasKey k m =
        let (t, among, named, dep) = users-Among id k tasks m in
        subst (λ x. HasKey x degree) named (_, v.degrees_open t among)

    ready-open : (t : RefactorTask) → Among t tasks → t.id ≡ id → open_count t.dependencies done ≡ 0
    unfolding contains
    ready-open t m named = ground (arith, v.free t m, eq_iff id t.id)

    next-IsOrdered : IsOrdered tasks [] (done ++ id ∷ [])
    next-IsOrdered = IsOrdered-snoc tasks [] done id v.ordered λ more sub t m named d dep.
        sub d (unfold contains in open_count-zero t.dependencies done d (ready-open t m named) dep)

    users_iff :
        (t : RefactorTask)
        → Among t tasks
        → contains t.id (users id tasks) ≡ contains id t.dependencies
    users_iff t m = elim (Bool-cases (contains id t.dependencies)) [
      | inl e ↦ rw e (Among-users id t tasks m e)
      | inr e ↦ elim (Bool-cases (contains t.id (users id tasks))) [
        | inr f ↦ f ∙ sym e
        | inl f ↦
            let (w, among, named, dep) = users-Among id t.id tasks f in
            let same = Among-unique w t tasks l.unique among m named in
            let g : contains id t.dependencies ≡ true =
              subst (λ x. contains id x.dependencies ≡ true) same dep in
            f ∙ sym g
      ]
    ]

    -- The open dependencies of a task, after the visit.
    opened :
        (t : RefactorTask)
        → Among t tasks
        → open_count t.dependencies done ≡ (
            if contains id t.dependencies
            then suc (open_count t.dependencies (done ++ id ∷ []))
            else open_count t.dependencies (done ++ id ∷ []))
    opened t m = elim (Bool-cases (contains id t.dependencies)) [
      | inl e ↦ rw e (open_count-visit t.dependencies done id (l.named_once t m) e id-undone)
      | inr e ↦ rw e (sym (open_count-other t.dependencies done id e))
    ]

    pub next-Inv :
        (degree' : Dict.Dict ℤ) (ready' : List String)
        → ((k : String) (n : ℤ)
            → Dict.get k degree ≡ some n
            → (Dict.get k degree' ≡ some (if contains k (users id tasks) then lower n else n))
              × (contains k ready'
                  ≡ (contains k ready || (contains k (users id tasks) && is_zero (lower n)))))
        → (IsDistinct ready
            → ((k : String) → contains k (users id tasks) ≡ true → contains k ready ≡ false)
            → IsDistinct ready')
        → Subset ready' (users id tasks ++ ready)
        → Inv tasks (done ++ id ∷ []) ready' degree'
    unfolding contains
    next-Inv degree' ready' after distinct within = record {
      done_once = IsDistinct-snoc done id v.done_once id-undone;
      ready_once = distinct v.ready_once.1 (λ k m. ground (arith, (user-waits k m).0));
      apart = λ k h. elim (Bool-cases (contains k (users id tasks))) [
        | inl e ↦ ground (arith, contains-append k done (id ∷ []), user-waits k e)
        | inr e ↦ ground (
          arith,
          contains-append k done (id ∷ []),
          within k h,
          contains-append k (users id tasks) ready,
          v.apart k,
          v.ready_once,
          eq_iff id k,
        )
      ];
      done_known =
          λ k h. ground (arith, contains-append k done (id ∷ []), v.done_known k, v.ready_known k);
      ready_known = λ k h. elim (Bool-cases (contains k (users id tasks))) [
        | inl e ↦
            let (t, m, named, dep) = users-Among id k tasks e in
            rw (← named) (Among-contains t tasks m)
        | inr e ↦
            v.ready_known k (ground (arith, within k h, contains-append k (users id tasks) ready))
      ];
      degrees_open = λ t m. ground (
        arith,
        (after t.id (pos (open_count t.dependencies done)) (v.degrees_open t m)).0,
        users_iff t m,
        opened t m,
      );
      free = λ t m. ground (
        arith,
        (after t.id (pos (open_count t.dependencies done)) (v.degrees_open t m)).1,
        users_iff t m,
        opened t m,
        user-waits t.id,
        v.free t m,
        contains-append t.id done (id ∷ []),
      );
      ordered = next-IsOrdered;
    }
