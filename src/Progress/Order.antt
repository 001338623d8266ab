-- ===== src/Progress/Order.antt =====
-- Completed tasks in dependency order, and what is downstream of the others.
use refactor_agent.Common.{
  Bool-cases, contains, String, ◌≡◌, refl, inl, inr, true, false, List, [], arith,
}
use refactor_agent.Plans.{RefactorTask}
use refactor_agent.Plans.Ordering.{IsOrdered, IsOrdered-NeedsMet}
use refactor_agent.Downstream.Exact.{Downstream, root, step}

module _ (tasks : List RefactorTask) where
  -- Nothing that is downstream of unfinished tasks is finished.
  pub Downstream-unfinished :
      (roots done : List String) {k : String}
      → IsOrdered tasks [] done
      → ((r : String) → contains r roots ≡ true → contains r done ≡ false)
      → Downstream tasks roots k
      → contains k done ≡ false
  Downstream-unfinished roots done o out (root id h) = out id h
  Downstream-unfinished roots done o out (step t d m dep below) =
      let ih = Downstream-unfinished roots done o out below in
      elim (Bool-cases (contains t.id done)) [
        | inr e ↦ e
        | inl e ↦
            let needs =
              IsOrdered-NeedsMet tasks [] done done t.id o (λ k h. unfold contains in cc) (λ k h. h)
                e in
            let met = needs t m refl d dep in absurd (ground arith)
      ]
