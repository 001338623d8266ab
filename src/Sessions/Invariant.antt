-- ===== src/Sessions/Invariant.antt =====
-- What holds of the session registry after every critical section, in any interleaving.
use refactor_agent.Common.{
  Bool-cases, Option-cases, holds, ℕ, String, ◌≢◌, inl, inr, Bool, Option, none, some, List, [],
  ◌∷◌, arith, ◌==◌,
}
use refactor_agent.Dict
use refactor_agent.Dict.{Dict, All-get, All-put, All-keep}
use refactor_agent.Sessions.{
  SessionRecord, Registry, Outcome, prune_expired, with_record, begin_run_body, require_active_body,
  finish_run_body, begin_approval_body, decide_body, consume_decision_body, finish_owned_run,
  create, require, Section, perform, perform_all, run_state, err, creates, requires, begins_run,
  reads_run, finishes_run, finishes_owned, begins_approval, decides, consumes, on_found, authorise,
}

-- A decision belongs to an approval, and an approval to an active run.
abbrev pub Chained : Option String → Option String → Option Bool → Type 0
Chained none none none = Unit
Chained (some run_id) none none = Unit
Chained (some run_id) (some approval_id) d = Unit
Chained _ _ _ = ⊥

abbrev pub IsSound : SessionRecord → Type 0
IsSound r = Chained r.active_run_id r.approval_id r.approval_decision

abbrev Preserves : {A : Type 0} → (SessionRecord → Outcome A × SessionRecord) → Type 0
Preserves body = (r : SessionRecord) → IsSound r → IsSound (body r).1

begin_run-Preserves : (fresh : String) → Preserves (begin_run_body fresh)
unfolding begin_run_body
begin_run-Preserves fresh r h = ground arith

require_active-Preserves : Preserves require_active_body
unfolding require_active_body
require_active-Preserves r h = ground arith

finish_run-Preserves : (run_id : String) → Preserves (finish_run_body run_id)
unfolding finish_run_body
finish_run-Preserves run_id r h = ground arith

begin_approval-Preserves : (run_id fresh : String) → Preserves (begin_approval_body run_id fresh)
unfolding begin_approval_body
begin_approval-Preserves run_id fresh r h = ground arith

decide-Preserves : (id : String) (approved : Bool) → Preserves (decide_body id approved)
unfolding decide_body
decide-Preserves id approved r h = ground arith

consume-Preserves : Preserves consume_decision_body
unfolding consume_decision_body
consume-Preserves r h = ground arith

-- Of every session, whatever its thread.
abbrev pub IsConsistent : Registry → Type 0
IsConsistent rs = Dict.All IsSound rs

with_record-IsConsistent :
    {A : Type 0} (thread_id : String) (body : SessionRecord → Outcome A × SessionRecord)
    (rs : Registry)
    → Preserves body
    → IsConsistent rs
    → IsConsistent (with_record thread_id body rs).1
unfolding with_record
with_record-IsConsistent thread_id body rs keeps h = elim (Option-cases (Dict.get thread_id rs)) [
  | inl e ↦ rw (e, on_found) h
  | inr (r, e) ↦
      rw (e, on_found)
        (All-put IsSound thread_id (body r).1 rs (keeps r (All-get IsSound thread_id rs h e)) h)
]

finish_owned-IsConsistent :
    (thread_id run_id : String) (rs : Registry)
    → IsConsistent rs
    → IsConsistent (finish_owned_run thread_id run_id rs).1
unfolding finish_owned_run
finish_owned-IsConsistent thread_id run_id rs h = elim (Option-cases (Dict.get thread_id rs)) [
  | inl e ↦ rw (e, finish_owned_run) h
  | inr (r, e) ↦
      rw (e, finish_owned_run)
        (elim (Bool-cases (holds r.active_run_id run_id)) [
          | inl t ↦ rw t (All-put IsSound thread_id _ rs tt h)
          | inr t ↦ rw t h
        ])
]

module _ (digest : String → String) (ttl_seconds : ℕ) where
  require-IsConsistent :
      (now : ℕ) (thread_id session_token : String) (rs : Registry)
      → IsConsistent rs
      → IsConsistent (require digest ttl_seconds now thread_id session_token rs).1
  unfolding require prune_expired
  require-IsConsistent now thread_id session_token rs h =
      let live = prune_expired now rs in
      let live_ok : IsConsistent live = All-keep IsSound _ rs h in
      elim (Option-cases (Dict.get thread_id live)) [
        | inl e ↦ rw (e, authorise) live_ok
        | inr (r, e) ↦
            rw (e, authorise)
              (elim (Bool-cases (r.token_digest == digest session_token)) [
                | inl t ↦ rw t (
                    All-put IsSound thread_id _ live (All-get IsSound thread_id live live_ok e)
                      live_ok)
                | inr t ↦ rw t live_ok
              ])
      ]

  perform-IsConsistent :
      (s : Section) (rs : Registry)
      → IsConsistent rs
      → IsConsistent (perform digest ttl_seconds s rs)
  unfolding perform create prune_expired
  perform-IsConsistent (creates now t s) rs h =
      All-put IsSound t _ (prune_expired now rs) tt (All-keep IsSound _ rs h)
  perform-IsConsistent (requires now t s) rs h = require-IsConsistent now t s rs h
  perform-IsConsistent (begins_run t fresh) rs h =
      with_record-IsConsistent t _ rs (begin_run-Preserves fresh) h
  perform-IsConsistent (reads_run t) rs h =
      with_record-IsConsistent t _ rs require_active-Preserves h
  perform-IsConsistent (finishes_run t run_id) rs h =
      with_record-IsConsistent t _ rs (finish_run-Preserves run_id) h
  perform-IsConsistent (finishes_owned t run_id) rs h = finish_owned-IsConsistent t run_id rs h
  perform-IsConsistent (begins_approval t run_id fresh) rs h =
      with_record-IsConsistent t _ rs (begin_approval-Preserves run_id fresh) h
  perform-IsConsistent (decides t id approved) rs h =
      with_record-IsConsistent t _ rs (decide-Preserves id approved) h
  perform-IsConsistent (consumes t) rs h = with_record-IsConsistent t _ rs consume-Preserves h

  perform_from-IsConsistent :
      (ss : List Section) (rs : Registry)
      → IsConsistent rs
      → IsConsistent (perform_all digest ttl_seconds ss rs)
  unfolding perform_all
  perform_from-IsConsistent [] rs h = h
  perform_from-IsConsistent (s ∷ ss) rs h =
      perform_from-IsConsistent ss _ (perform-IsConsistent s rs h)

  -- After any interleaving of critical sections that starts from an empty registry, every session's
  -- decision belongs to an approval and its approval to an active run.
  pub perform_all-IsConsistent :
      (ss : List Section) → IsConsistent (perform_all digest ttl_seconds ss [])
  perform_all-IsConsistent ss = perform_from-IsConsistent ss [] tt

-- In a consistent registry `consume_decision` never meets its "decision without an active run"
-- branch: it raises RunStateError for no session.
pub consume-ne-run_state :
    (thread_id : String) (rs : Registry)
    → IsConsistent rs
    → (with_record thread_id consume_decision_body rs).0 ≢ err run_state
unfolding with_record consume_decision_body
consume-ne-run_state thread_id rs h = elim (Option-cases (Dict.get thread_id rs)) [
  | inl e ↦ rw (e, on_found) (ground arith)
  | inr (r, e) ↦
      rw (e, on_found) (let s : IsSound r = All-get IsSound thread_id rs h e in ground arith)
]
