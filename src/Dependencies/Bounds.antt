-- ===== src/Dependencies/Bounds.antt =====
-- The bounds of what a task hands to the tasks that depend on it.
use refactor_agent.Common.{
  Bool-cases, length, length-append, text_length, ℕ, zero, suc, ◌+◌, ◌≤◌, String, ◌≡◌, refl, ap,
  inl, inr, Bool, true, false, List, [], ◌∷◌, ◌++◌, arith,
}
use refactor_agent.Plans.{RefactorTask}
use refactor_agent.State.{Execution}
use refactor_agent.Dependencies.{
  max_dependency_context_chars, Candidate, drop_last, Encoder, render_dependency_context, candidate,
  too_long, gather, shrink,
}

drop_last-length {ℓ} : {A : Type ℓ} (x : A) (xs : List A) → length (drop_last (x ∷ xs)) ≡ length xs
unfolding drop_last
drop_last-length x [] = refl
drop_last-length x (y ∷ xs) = ap suc (drop_last-length y xs)

module _ (encode : Encoder) (bound : ℕ)
    (empty_fits : (truncated : Bool) (omitted : ℕ)
      → omitted ≤ bound
      → text_length (encode [] truncated omitted) ≤ max_dependency_context_chars) where
  shrink-fits :
      (fuel : ℕ) (selected : List Candidate) (truncated : Bool) (omitted : ℕ)
      → length selected ≤ fuel
      → omitted + length selected ≤ bound
      → text_length (shrink encode fuel selected truncated omitted) ≤ max_dependency_context_chars
  unfolding shrink too_long
  shrink-fits zero [] truncated omitted h b = empty_fits truncated omitted (omega arith)
  shrink-fits zero (c ∷ cs) truncated omitted h b = absurd (omega arith)
  shrink-fits (suc fuel) [] truncated omitted h b = ground (arith, empty_fits truncated omitted)
  shrink-fits (suc fuel) (c ∷ cs) truncated omitted h b =
      ground
        (arith, shrink-fits fuel (drop_last (c ∷ cs)) true (omitted + 1), drop_last-length c cs)

  gather-count :
      (ex : Execution) (ds : List String) (selected : List Candidate) (omitted : ℕ)
      → (gather encode ex ds selected omitted).1 + length (gather encode ex ds selected omitted).0
        ≡ omitted + length selected + length ds
  unfolding gather
  gather-count ex [] selected omitted = omega arith
  gather-count ex (d ∷ ds) selected omitted =
      let longer = selected ++ candidate ex d ∷ [] in
      elim (Bool-cases (too_long encode (encode longer false 0))) [
        | inl e ↦ rw (e, gather) (omega (arith, gather-count ex ds selected (omitted + 1)))
        | inr e ↦
            rw (e, gather)
              (omega (
                arith,
                gather-count ex ds longer omitted,
                length-append selected (candidate ex d ∷ []),
              ))
      ]

  -- If `json.dumps` of a context with no dependencies fits, for every number of omitted ones up to
  -- the task's dependencies, then the rendered context fits: at most 6000 characters, whatever the
  -- results of the dependencies are.
  pub render_dependency_context-fits :
      (ex : Execution) (task : RefactorTask)
      → length task.dependencies ≤ bound
      → text_length (render_dependency_context encode ex task) ≤ max_dependency_context_chars
  unfolding render_dependency_context
  render_dependency_context-fits ex task h =
      shrink-fits _ _ _ _ (omega arith) (omega (arith, gather-count ex task.dependencies [] 0))
