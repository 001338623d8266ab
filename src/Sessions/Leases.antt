-- ===== src/Sessions/Leases.antt =====
-- The run lease of a session: begin_run, finish_run and finish_owned_run of session_registry.py.
use refactor_agent.Common.{
  Option-cases, holds-some, ℕ, ◌+◌, ◌<◌, String, ◌≡◌, ◌∙◌, ◌≢◌, ◌↔◌, inl, inr, true, false, none,
  some, arith, eq_iff,
}
use refactor_agent.Dict
use refactor_agent.Dict.{Dict}
use refactor_agent.Sessions.{
  SessionRecord, Registry, begin_run_body, require_active_body, finish_run_body, finish_owned_run,
  begin_run, require_active_run, finish_run, run_state, ok, err,
}
use refactor_agent.Sessions.Methods.{IsAuthorised, method-result, method-method-result}

-- Another run's lease survives `finish_owned_run`, in every session: where the call returns False
-- the registry is as it was, and it returns True exactly when the session holds that run.
pub finish_owned_run_exact :
    (t run_id : String) (rs : Registry)
    → (((finish_owned_run t run_id rs).0 ≡ ok true)
        ↔ ((r : SessionRecord) × (Dict.get t rs ≡ some r) × (r.active_run_id ≡ some run_id)))
      × ((finish_owned_run t run_id rs).0 ≡ ok false → (finish_owned_run t run_id rs).1 ≡ rs)
unfolding finish_owned_run
finish_owned_run_exact t run_id rs = elim (Option-cases (Dict.get t rs)) [
  | inl e ↦
      ((λ x. absurd (ground arith), λ (r, found, _). absurd (ground arith)), λ x. ground arith)
  | inr (r, e) ↦ (
    (
      λ x. (r, e, holds-some r.active_run_id run_id (ground arith)),
      λ (q, found, active). ground (arith, eq_iff run_id run_id),
    ),
    λ x. ground arith,
  )
]

module _ (digest : String → String) (ttl_seconds now later : ℕ) (t s : String) (rs : Registry)
    {r : SessionRecord} (u : Dict.IsUnique rs) (h : IsAuthorised digest ttl_seconds now t s rs r)
    (soon : later < now + ttl_seconds) where
  -- For an authorised session (in a registry where no key stands twice) with no active run,
  -- `begin_run` returns the fresh run id, and a second `begin_run` before the session expires
  -- raises RunStateError.
  pub begin_run_twice :
      (fresh fresh' : String)
      → r.active_run_id ≡ none
      → ((begin_run digest ttl_seconds now t s fresh rs).0 ≡ ok fresh)
        × ((begin_run digest ttl_seconds later t s fresh'
              (begin_run digest ttl_seconds now t s fresh rs).1).0
            ≡ err run_state)
  unfolding begin_run begin_run_body
  begin_run_twice fresh fresh' idle = (
    method-result digest ttl_seconds now t s (begin_run_body fresh) rs u h ∙ rw idle,
    method-method-result digest ttl_seconds now later t s rs u h soon (begin_run_body fresh)
          (begin_run_body fresh') (λ q. ground arith)
        ∙ rw idle,
  )

  -- For an authorised session (in a registry where no key stands twice) whose active run is
  -- `run_id`: finishing another run returns False and leaves `run_id` active; finishing `run_id`
  -- returns True, after which, before the session expires, a new run can begin.
  pub finish_run_own :
      (run_id other fresh : String)
      → r.active_run_id ≡ some run_id
      → run_id ≢ other
      → ((finish_run digest ttl_seconds now t s other rs).0 ≡ ok false)
        × ((require_active_run digest ttl_seconds later t s
              (finish_run digest ttl_seconds now t s other rs).1).0
            ≡ ok run_id)
        × ((finish_run digest ttl_seconds now t s run_id rs).0 ≡ ok true)
        × ((begin_run digest ttl_seconds later t s fresh
              (finish_run digest ttl_seconds now t s run_id rs).1).0
            ≡ ok fresh)
  unfolding begin_run begin_run_body finish_run finish_run_body require_active_run
      require_active_body
  finish_run_own run_id other fresh active ne = (
    method-result digest ttl_seconds now t s (finish_run_body other) rs u h
        ∙ ground (arith, eq_iff run_id other),
    method-method-result digest ttl_seconds now later t s rs u h soon (finish_run_body other)
          require_active_body (λ q. ground arith)
        ∙ ground (arith, eq_iff run_id other),
    method-result digest ttl_seconds now t s (finish_run_body run_id) rs u h
        ∙ ground (arith, eq_iff run_id run_id),
    method-method-result digest ttl_seconds now later t s rs u h soon (finish_run_body run_id)
          (begin_run_body fresh) (λ q. ground arith)
        ∙ ground (arith, eq_iff run_id run_id),
  )
