-- ===== src/Examples/Lifecycles.antt =====
-- A run that is retained for the user's answer and then cleaned up (backend/agent/run_lifecycle.py).
use refactor_agent.Common.{◌≡◌, refl, inl, true, false, none, some, [], ◌∷◌, arith}
use refactor_agent.Lifecycles.{
  RunLifecycle, Attempt, new_report, Running, release_found, cleanup, completed, credential,
  checkpoint, lease, workspace,
}
use refactor_agent.Lifecycles.Once.{times, IsOnce, happen, happen_all, happen_all-IsOnce, cleans}
use refactor_agent.Lifecycles.Outcomes.{CompleteAs, release_found-CompleteAs}

abbrev fresh : RunLifecycle
fresh = record {
  workspace_id = some "w1";
  hitl_retention = none;
  stop_requested = false;
  has_producer = true;
  producer_error = none;
  credential_revoked = false;
  checkpoint_deleted = false;
  lease_released = false;
  workspace_cleaned = false;
  last_report = none;
  registered = true;
  released = [];
  updates = [];
}

abbrev smooth : Attempt
smooth = record { producer_runs = false; resolved = inl none; raises = λ x. none }

-- The lease cannot be finished.
abbrev rough : Attempt
rough = record smooth { raises = λ x. elim x [ lease ↦ some "RuntimeError" | _ ↦ none ] }

-- The second attempt releases what the first has left.
retried :
    (happen_all (cleans rough completed false ∷ cleans smooth completed false ∷ []) fresh).released
    ≡ credential ∷ checkpoint ∷ workspace ∷ lease ∷ []
unfolding happen_all happen cleanup
retried = refl

fresh-IsOnce : IsOnce fresh
unfolding times
fresh-IsOnce = (
  (omega arith, λ e. refl),
  (omega arith, λ e. refl),
  (omega arith, λ e. refl),
  (omega arith, λ e. refl),
)

happen_all-IsOnce_example :
    IsOnce (happen_all (cleans rough completed false ∷ cleans smooth completed false ∷ []) fresh)
happen_all-IsOnce_example =
    happen_all-IsOnce (cleans rough completed false ∷ cleans smooth completed false ∷ []) fresh
      fresh-IsOnce

abbrev begun : Running
begun = (fresh, new_report completed)

release_found-CompleteAs_example : CompleteAs smooth false begun (release_found smooth false begun)
unfolding release_found new_report
release_found-CompleteAs_example = release_found-CompleteAs smooth false begun refl
