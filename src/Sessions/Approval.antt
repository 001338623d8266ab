-- ===== src/Sessions/Approval.antt =====
-- The approval of a run: begin_approval, decide and consume_decision of session_registry.py.
use refactor_agent.Common.{
  if◌then◌else◌, holds, ℕ, ◌+◌, ◌<◌, String, ◌≡◌, ◌∙◌, ◌≢◌, ◌↔◌, Bool, true, ◌&&◌, none, some,
  arith, eq_iff,
}
use refactor_agent.Dict
use refactor_agent.Dict.{Dict}
use refactor_agent.Sessions.{
  SessionRecord, Registry, begin_approval_body, same_decision, decide_body, Decision,
  consume_decision_body, is_resumable_approval, begin_approval, decide, consume_decision,
  approval_state, ok, err, pending_approval,
}
use refactor_agent.Sessions.Methods.{
  IsAuthorised, method-result, method-get, method-method-result, method-method-get,
}

same_decision_iff : (a b : Bool) → (same_decision a b ≡ true) ↔ (a ≡ b)
unfolding same_decision
same_decision_iff a b = ground arith

is_resumable-found :
    (t run_id id : String) (rs : Registry) {r : SessionRecord}
    → Dict.get t rs ≡ some r
    → is_resumable_approval t run_id id rs
      ≡ (holds r.active_run_id run_id && holds (pending_approval r) id)
unfolding is_resumable_approval
is_resumable-found t run_id id rs e = rw (e, is_resumable_approval)

module _ (digest : String → String) (ttl_seconds now later : ℕ) (t s : String) (rs : Registry)
    {r : SessionRecord} (u : Dict.IsUnique rs) (h : IsAuthorised digest ttl_seconds now t s rs r)
    (soon : later < now + ttl_seconds) where
  -- For an authorised session (in a registry where no key stands twice), a decision on the pending
  -- approval `id` (not empty) is accepted. A second one before the session expires is accepted if
  -- it is the same, raises ApprovalStateError if not, and in both cases the first decision stays
  -- on record.
  pub decide_twice :
      (id : String) (a b : Bool)
      → r.approval_id ≡ some id
      → id ≢ ""
      → r.approval_decision ≡ none
      → ((decide digest ttl_seconds now t s id a rs).0 ≡ ok tt)
        × ((decide digest ttl_seconds later t s id b
              (decide digest ttl_seconds now t s id a rs).1).0
            ≡ (if same_decision a b then ok tt else err approval_state))
        × ((q : SessionRecord) × (Dict.get t
                (decide digest ttl_seconds later t s id b
                  (decide digest ttl_seconds now t s id a rs).1).1
              ≡ some q)
            × (q.approval_decision ≡ some a))
  unfolding decide decide_body
  decide_twice id a b asked named open_ = (
    method-result digest ttl_seconds now t s (decide_body id a) rs u h
        ∙ ground (arith, eq_iff id id, eq_iff id ""),
    method-method-result digest ttl_seconds now later t s rs u h soon (decide_body id a)
          (decide_body id b) (λ q. ground arith)
        ∙ ground (arith, eq_iff id id, eq_iff id ""),
    (
      _,
      method-method-get digest ttl_seconds now later t s rs u h soon (decide_body id a)
          (decide_body id b) (λ q. ground arith),
      ground (arith, eq_iff id id, eq_iff id ""),
    ),
  )

  -- A decision that names another approval than the pending one raises ApprovalStateError and
  -- leaves the session's approval, decision and run as they were.
  pub decide_stale :
      (id stale : String) (a : Bool)
      → r.approval_id ≡ some id
      → id ≢ stale
      → ((decide digest ttl_seconds now t s stale a rs).0 ≡ err approval_state)
        × (Dict.get t (decide digest ttl_seconds now t s stale a rs).1
            ≡ some (record r { expires_at = now + ttl_seconds }))
  unfolding decide decide_body
  decide_stale id stale a asked ne = (
    method-result digest ttl_seconds now t s (decide_body stale a) rs u h
        ∙ ground (arith, eq_iff id stale),
    method-get digest ttl_seconds now t s (decide_body stale a) rs u h
        ∙ ground (arith, eq_iff id stale),
  )

  -- For an authorised session (in a registry where no key stands twice), a decision on the pending
  -- approval (not empty) of an active run is handed out by `consume_decision`, before the session
  -- expires, with that approval and run; the session is then without an approval and keeps the
  -- run.
  pub decide-consume_decision :
      (id run_id : String) (a : Bool)
      → r.approval_id ≡ some id
      → id ≢ ""
      → r.approval_decision ≡ none
      → r.active_run_id ≡ some run_id
      → ((consume_decision digest ttl_seconds later t s
            (decide digest ttl_seconds now t s id a rs).1).0
          ≡ ok (some (record { approval = id; approved = a; run = run_id })))
        × ((q : SessionRecord) × (Dict.get t
                (consume_decision digest ttl_seconds later t s
                  (decide digest ttl_seconds now t s id a rs).1).1
              ≡ some q)
            × (q.approval_id ≡ none)
            × (q.active_run_id ≡ some run_id))
  unfolding decide decide_body consume_decision consume_decision_body
  decide-consume_decision id run_id a asked named open_ active = (
    method-method-result digest ttl_seconds now later t s rs u h soon (decide_body id a)
          consume_decision_body (λ q. ground arith)
        ∙ ground (arith, eq_iff id id, eq_iff id ""),
    (
      _,
      method-method-get digest ttl_seconds now later t s rs u h soon (decide_body id a)
          consume_decision_body (λ q. ground arith),
      ground (arith, eq_iff id id, eq_iff id ""),
      ground (arith, eq_iff id id, eq_iff id ""),
    ),
  )

  -- For an authorised session (in a registry where no key stands twice), a decision that
  -- `consume_decision` returned is returned once: the next call, before the session expires,
  -- returns None.
  pub consume_decision_once :
      (d : Decision)
      → (consume_decision digest ttl_seconds now t s rs).0 ≡ ok (some d)
      → (consume_decision digest ttl_seconds later t s
          (consume_decision digest ttl_seconds now t s rs).1).0
        ≡ ok none
  unfolding consume_decision consume_decision_body
  consume_decision_once d e =
      method-method-result digest ttl_seconds now later t s rs u h soon consume_decision_body
        consume_decision_body (λ q. ground arith)
      ∙ ground (arith, method-result digest ttl_seconds now t s consume_decision_body rs u h)

  -- For an authorised session (in a registry where no key stands twice) without an approval,
  -- `begin_approval` for the active run returns the fresh id (not empty), which is then resumable;
  -- asking again before the session expires returns the same id.
  pub begin_approval_again :
      (run_id fresh fresh' : String)
      → r.active_run_id ≡ some run_id
      → r.approval_id ≡ none
      → fresh ≢ ""
      → ((begin_approval digest ttl_seconds now t s run_id fresh rs).0 ≡ ok fresh)
        × ((begin_approval digest ttl_seconds later t s run_id fresh'
              (begin_approval digest ttl_seconds now t s run_id fresh rs).1).0
            ≡ ok fresh)
        × (is_resumable_approval t run_id fresh
              (begin_approval digest ttl_seconds now t s run_id fresh rs).1
            ≡ true)
  unfolding begin_approval begin_approval_body
  begin_approval_again run_id fresh fresh' active idle named = (
    method-result digest ttl_seconds now t s (begin_approval_body run_id fresh) rs u h
        ∙ ground (arith, eq_iff run_id run_id),
    method-method-result digest ttl_seconds now later t s rs u h soon
          (begin_approval_body run_id fresh) (begin_approval_body run_id fresh') (λ q. ground arith)
        ∙ ground (arith, eq_iff run_id run_id, eq_iff fresh ""),
    is_resumable-found t run_id fresh _
          (method-get digest ttl_seconds now t s (begin_approval_body run_id fresh) rs u h)
        ∙ (ground (arith, eq_iff run_id run_id, eq_iff fresh "", eq_iff fresh fresh)),
  )
