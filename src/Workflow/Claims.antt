-- ===== src/Workflow/Claims.antt =====
-- When the Reviewer's edge leads to success (backend/agent/edges.py, backend/agent/nodes.py).
use refactor_agent.Common.{
  ltb, Bool-cases, Option-cases, List-cases, String, ◌≡◌, refl, sym, ap, ◌≢◌, ◌⊎◌, inl, inr, true,
  none, some, some-injective, List, [], ◌∷◌, arith,
}
use refactor_agent.State.{State, review_failed}
use refactor_agent.Messages.{join_text, get_message_text, mentions, Message, content_of, last?}
use refactor_agent.Evidence.{EvidenceLibrary, review_evidence_errors}
use refactor_agent.Evidence.Proof.{IsProven, review_evidence_errors-exact}
use refactor_agent.Routes.{
  max_developer_retries, max_review_protocol_errors, has_tool_calls, retry_protocol, route_judged,
  route_verdict, route_reviewer, finalize_review_success,
}
use refactor_agent.Verdicts.{
  end_failed, refusal_reason, refuse_success, close_success, finalize_review_success_node,
}
use refactor_agent.Verdicts.Endings.{IsSuccess, close_success-IsSuccess}

retry_protocol-other : (s : State) → retry_protocol s ≢ finalize_review_success
unfolding retry_protocol
retry_protocol-other s h =
    elim (Bool-cases (ltb s.review_protocol_errors max_review_protocol_errors)) [
      | inl e ↦ ground (arith, e)
      | inr e ↦ ground (arith, e)
    ]

judged_complete :
    (s : State) (errors : List String)
    → route_judged s errors ≡ finalize_review_success
    → errors ≡ []
unfolding route_judged
judged_complete s [] h = refl
judged_complete s (e ∷ es) h = absurd (retry_protocol-other s h)

module _ (lib : EvidenceLibrary) where
  verdict-claims :
      (s : State) (content : String)
      → route_verdict lib s content ≡ finalize_review_success
      → (mentions content "【REFACTOR_SUCCESS】" ≡ true) × (review_evidence_errors lib s ≡ [])
  unfolding route_verdict
  verdict-claims s content h = elim (Bool-cases (mentions content "【REFACTOR_FAIL】")) [
    | inl f ↦ elim (Bool-cases (ltb s.retry_count max_developer_retries)) [
      | inl l ↦ absurd (ground (arith, f, l))
      | inr l ↦ absurd (ground (arith, f, l))
    ]
    | inr f ↦ elim (Bool-cases (mentions content "【REFACTOR_SUCCESS】")) [
      | inl c ↦ (c, judged_complete s (review_evidence_errors lib s) (ground (arith, f, c)))
      | inr c ↦
          let r : retry_protocol s ≡ finalize_review_success = ground (arith, f, c) in
          absurd (retry_protocol-other s r)
    ]
  ]

  -- The run's last message claims success and the evidence has no gap.
  pub IsClaim : State → Type 0
  IsClaim s =
      (m : Message) × (last? s.messages ≡ some m)
      × (mentions (get_message_text (content_of m)) "【REFACTOR_SUCCESS】" ≡ true)
      × (review_evidence_errors lib s ≡ [])

  pub route_reviewer-IsClaim :
      (s : State) → route_reviewer lib s ≡ some finalize_review_success → IsClaim s
  unfolding route_reviewer IsClaim
  route_reviewer-IsClaim s h = elim (Bool-cases s.budget_exceeded) [
    | inl b ↦ absurd (ground (arith, b))
    | inr b ↦ elim (Option-cases (last? s.messages)) [
      | inl e ↦ absurd (ground (arith, b, e))
      | inr (m, e) ↦ elim (Bool-cases (has_tool_calls m)) [
        | inl t ↦ absurd (ground (arith, b, e, t))
        | inr t ↦
            let v : route_verdict lib s (get_message_text (content_of m))
                ≡ finalize_review_success =
              ground (arith, b, e, t) in
            let (c, good) = verdict-claims s (get_message_text (content_of m)) v in (m, e, c, good)
      ]
    ]
  ]

  -- The run ends as a success, or its success is turned down.
  pub ClosedAs : State → State → Type 0
  ClosedAs s t =
      IsSuccess lib s t ⊎ ((t.review_status ≡ some review_failed) × (t.review_evidence ≡ none))

  claimed-ClosedAs :
      (s t : State) (m : Message)
      → last? s.messages ≡ some m
      → mentions (get_message_text (content_of m)) "【REFACTOR_SUCCESS】" ≡ true
      → finalize_review_success_node lib s ≡ some t
      → ClosedAs s t
  unfolding finalize_review_success_node refuse_success end_failed ClosedAs
  claimed-ClosedAs s t m e claims h = elim (List-cases (review_evidence_errors lib s)) [
    | inl good ↦
        let p : IsProven lib s = (review_evidence_errors-exact lib s).0 good in
        let r : close_success lib s ≡ some t = ground (arith, e, good, claims) in
        inl (close_success-IsSuccess lib s t p m e claims r)
    | inr (x, xs, bad) ↦
        let r : some (
              refuse_success lib
                (join_text ("【REFACTOR_FAIL】成功终态证据校验失败：" ∷ refusal_reason lib (x ∷ xs) ∷ "。" ∷ []))
                s)
            ≡ some t =
          ground (arith, e, bad) in
        let same : refuse_success lib
              (join_text ("【REFACTOR_FAIL】成功终态证据校验失败：" ∷ refusal_reason lib (x ∷ xs) ∷ "。" ∷ [])) s
            ≡ t =
          some-injective _ t r in
        inr (
          sym (ap (λ (u : State). u.review_status) same),
          sym (ap (λ (u : State). u.review_evidence) same),
        )
  ]

-- The claim was found on one disk; the success is recorded on another.
pub claim-ClosedAs :
    (seen lib : EvidenceLibrary) (s t : State)
    → IsClaim seen s
    → finalize_review_success_node lib s ≡ some t
    → ClosedAs lib s t
unfolding IsClaim
claim-ClosedAs seen lib s t (m, e, claims, good) h = claimed-ClosedAs lib s t m e claims h
