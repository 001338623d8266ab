-- ===== src/Plans/Verdict.antt =====
-- The verdict of `_assert_acyclic` of backend/agent/plans.py.
use refactor_agent.Common.{
  eqb, Bool-cases, ℤ, length, length-append, contains, contains-cons_self, distinct, Subset,
  length-Subset, Subset-covers, ℕ, zero, suc, ◌+◌, ◌<◌, String, ◌≡◌, refl, sym, subst, ◌∙◌, ◌↔◌,
  inl, inr, Bool, true, some, List, [], ◌∷◌, ◌++◌, arith, ◌==◌, eq_iff,
}
use refactor_agent.Dict
use refactor_agent.Dict.{Dict, size}
use refactor_agent.Plans.{
  RefactorTask, task_ids, length-task_ids, degrees, no_dependents, append_dependents, zero_degree,
  visit, assert_acyclic,
}
use refactor_agent.Plans.Ordering.{IsOrdered, task_of}
use refactor_agent.Plans.Kahn.{users, users-IsDistinct, append_dependents_lem, relax_lem}
use refactor_agent.Plans.Acyclic.{IsLinked, open_count-done, Inv, users-HasKey, next-Inv}
use refactor_agent.Plans.Start.{get-no_dependents, start-Inv}

module _ (tasks : List RefactorTask) (l : IsLinked tasks) where
  module _ (dependents : Dict.Dict (List String))
      (filled : (id : String)
        → contains id (task_ids tasks) ≡ true
        → Dict.get id dependents ≡ some (users id tasks)) where
    -- With a round of fuel for each task that is not visited and one more, the loop ends with
    -- nothing ready, and returns the number of the visited tasks.
    visit-Inv :
        (fuel : ℕ) (done ready : List String) (degree : Dict.Dict ℤ)
        → length tasks < fuel + length done
        → Inv tasks done ready degree
        → (done' : List String) × (degree' : Dict.Dict ℤ) × (visit fuel dependents degree ready
              (length done)
            ≡ some (length done'))
          × Inv tasks done' [] degree'
    unfolding visit
    visit-Inv zero done ready degree h v = absurd (
        omega (
          arith,
          length-Subset done (task_ids tasks) v.done_once v.done_known,
          length-task_ids tasks,
        ))
    visit-Inv (suc fuel) done [] degree h v = (done, degree, refl, v)
    visit-Inv (suc fuel) done (id ∷ ready) degree h v =
        let e = filled id (v.ready_known id (contains-cons_self id ready)) in
        let (degree₁, ready₁, run, after, distinct, within) =
          relax_lem (users id tasks) degree ready (users-IsDistinct id tasks l.unique)
            (users-HasKey tasks l done ready id degree v) in
        let next = next-Inv tasks l done ready id degree v degree₁ ready₁ after distinct within in
        let longer_by_one : length (done ++ id ∷ []) ≡ suc (length done) =
          omega (arith, length-append done (id ∷ [])) in
        let (done', degree', runs, w) =
          visit-Inv fuel (done ++ id ∷ []) ready₁ degree₁ (omega arith) next in
        (
          done',
          degree',
          rw (e, visit)
              (rw (run, visit)
                (subst (λ n. visit fuel dependents degree₁ ready₁ n ≡ some (length done'))
                  longer_by_one runs)),
          w,
        )

  -- In the end every task that stands in an order of the plan is visited.
  ordered-visited :
      (done : List String) (degree : Dict.Dict ℤ) (seen ids : List String)
      → Inv tasks done [] degree
      → IsOrdered tasks seen ids
      → ((k : String)
          → contains k (task_ids tasks) ≡ true
          → contains k seen ≡ true
          → contains k done ≡ true)
      → (k : String) → contains k (task_ids tasks) ≡ true
      → contains k ids ≡ true
      → contains k done ≡ true
  unfolding contains
  ordered-visited done degree seen [] v o old k listed m = cc
  ordered-visited done degree seen (x ∷ xs) v o old k listed m = elim (Bool-cases (x == k)) [
    | inl e ↦ first k listed ((eq_iff x k).0 e)
    | inr e ↦
        ordered-visited done degree (x ∷ seen) xs v o.1
          (λ j j_listed j_seen. elim (Bool-cases (x == j)) [
            | inl f ↦ first j j_listed ((eq_iff x j).0 f)
            | inr f ↦ old j j_listed (ground arith)
          ])
          k listed (ground arith)
  ]
    where
      first : (j : String) → contains j (task_ids tasks) ≡ true → x ≡ j → contains j done ≡ true
      first j j_listed same =
          let (t, among, named) = task_of tasks j j_listed in
          let met =
            open_count-done t.dependencies done
              λ d dep. old d (l.known t among d dep) (o.0 t among (named ∙ sym same) d dep) in
          subst (λ n. contains n done ≡ true) named (ground (arith, v.free t among))

  dependents-filled :
      (dependents : Dict.Dict (List String)) × (append_dependents tasks (no_dependents tasks [])
        ≡ some dependents)
      × ((id : String)
          → contains id (task_ids tasks) ≡ true
          → Dict.get id dependents ≡ some (users id tasks))
  dependents-filled =
      let (dependents, run, after) =
        append_dependents_lem tasks (no_dependents tasks []) l.named_once
          (λ t k m dep. ([], get-no_dependents tasks [] k ∙ rw (l.known t m k dep))) in
      (dependents, run, λ id h. after id [] (get-no_dependents tasks [] id ∙ rw h))

  -- Of a plan with unique ids whose dependencies are ids of the plan, named once: `_assert_acyclic`
  -- comes to an end without KeyError, and accepts exactly if the tasks can be listed in an order in
  -- which each comes behind its dependencies.
  pub assert_acyclic-exact :
      (verdict : Bool) × (assert_acyclic tasks ≡ some verdict)
      × ((verdict ≡ true)
          ↔ ((order : List String) × IsOrdered tasks [] order × Subset (task_ids tasks) order))
  unfolding assert_acyclic
  assert_acyclic-exact =
      let (dependents, run, filled) = dependents-filled in
      let (done, degree, runs, v) =
        visit-Inv dependents filled (suc (length tasks)) [] (zero_degree (degrees tasks []) [])
          (degrees tasks []) (omega arith) (start-Inv tasks l) in
      let size = length-task_ids tasks in
      (
        eqb (length done) (length tasks),
        rw (run, assert_acyclic) (rw (runs, assert_acyclic)),
        (
          λ e. (
            done,
            v.ordered,
            Subset-covers done (task_ids tasks) v.done_once v.done_known (ground arith),
          ),
          λ (order, ordered, covers).
              let all : Subset (task_ids tasks) done = λ k h.
                ordered-visited done degree [] order v ordered (λ j a b. unfold contains in cc) k h
                  (covers k h) in
              ground (
                arith,
                length-Subset (task_ids tasks) done l.unique all,
                length-Subset done (task_ids tasks) v.done_once v.done_known,
              ),
        ),
      )
