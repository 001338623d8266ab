-- ===== src/Verdicts/Retries.antt =====
-- How often the Reviewer may be asked again (backend/agent/edges.py, backend/agent/nodes.py).
use refactor_agent.Common.{
  ltb, ltb→lt, Bool-cases, Option-cases, List-cases, ℕ, ◌+◌, ◌-◌, ◌<◌, String, ◌≡◌, refl, ◌≢◌, ◌⊎◌,
  inl, inr, Option, some, arith,
}
use refactor_agent.Messages.{get_message_text, mentions, content_of, last?}
use refactor_agent.State.{State}
use refactor_agent.Reviews.{Json, reopen_tasks_after_review}
use refactor_agent.Evidence.{EvidenceLibrary, review_evidence_errors}
use refactor_agent.Routes.{
  max_developer_retries, max_review_protocol_errors, Route, has_tool_calls, retry_protocol,
  route_verdict, route_reviewer, developer_retry, reviewer_protocol_retry,
}
use refactor_agent.Verdicts.{reviewer_protocol_retry_node, developer_retry_node}

retry_protocol-below :
    (s : State)
    → retry_protocol s ≡ reviewer_protocol_retry
    → s.review_protocol_errors < max_review_protocol_errors
unfolding retry_protocol
retry_protocol-below s h =
    elim (Bool-cases (ltb s.review_protocol_errors max_review_protocol_errors)) [
      | inl e ↦ ltb→lt s.review_protocol_errors max_review_protocol_errors e
      | inr e ↦ absurd (ground (arith, e))
    ]

retry_protocol-other : (s : State) → retry_protocol s ≢ developer_retry
unfolding retry_protocol
retry_protocol-other s h =
    elim (Bool-cases (ltb s.review_protocol_errors max_review_protocol_errors)) [
      | inl e ↦ ground (arith, e)
      | inr e ↦ ground (arith, e)
    ]

-- The retries that are left: of the Developer, and of the Reviewer's protocol.
abbrev pub chances_left : State → ℕ
chances_left s =
    (max_developer_retries - s.retry_count)
    + (max_review_protocol_errors - s.review_protocol_errors)

module _ (lib : EvidenceLibrary) (raw_decode : String → Option Json) (strip : String → String)
    (decimal : ℕ → String) where
  -- The Reviewer's last message sends the run back, to the Developer or to the Reviewer.
  pub data SentBack : State → State → Type 0 where
    to_developer :
        (s t : State)
        → route_reviewer lib s ≡ some developer_retry
        → developer_retry_node raw_decode strip decimal s ≡ some t
        → SentBack s t
    to_reviewer :
        (s : State)
        → route_reviewer lib s ≡ some reviewer_protocol_retry
        → SentBack s (reviewer_protocol_retry_node lib s)

  verdict-developer :
      (s : State) (content : String)
      → route_verdict lib s content ≡ developer_retry
      → s.retry_count < max_developer_retries
  unfolding route_verdict
  verdict-developer s content h = elim (Bool-cases (mentions content "【REFACTOR_FAIL】")) [
    | inl f ↦ elim (Bool-cases (ltb s.retry_count max_developer_retries)) [
      | inl e ↦ ltb→lt s.retry_count max_developer_retries e
      | inr e ↦ absurd (ground (arith, f, e))
    ]
    | inr f ↦ elim (Bool-cases (mentions content "【REFACTOR_SUCCESS】")) [
      | inr n ↦ absurd (retry_protocol-other s (ground (arith, f, n)))
      | inl y ↦ elim (List-cases (review_evidence_errors lib s)) [
        | inl e ↦ absurd (ground (arith, f, y, e))
        | inr (x, xs, e) ↦ absurd (retry_protocol-other s (ground (arith, f, y, e)))
      ]
    ]
  ]

  verdict-reviewer :
      (s : State) (content : String)
      → route_verdict lib s content ≡ reviewer_protocol_retry
      → s.review_protocol_errors < max_review_protocol_errors
  unfolding route_verdict
  verdict-reviewer s content h = elim (Bool-cases (mentions content "【REFACTOR_FAIL】")) [
    | inl f ↦ elim (Bool-cases (ltb s.retry_count max_developer_retries)) [
      | inl e ↦ absurd (ground (arith, f, e))
      | inr e ↦ absurd (ground (arith, f, e))
    ]
    | inr f ↦ elim (Bool-cases (mentions content "【REFACTOR_SUCCESS】")) [
      | inr n ↦ retry_protocol-below s (ground (arith, f, n))
      | inl y ↦ elim (List-cases (review_evidence_errors lib s)) [
        | inl e ↦ absurd (ground (arith, f, y, e))
        | inr (x, xs, e) ↦ retry_protocol-below s (ground (arith, f, y, e))
      ]
    ]
  ]

  -- Where the edge sends the run back, the verdict does.
  by_verdict :
      (s : State) (r : Route)
      → route_reviewer lib s ≡ some r
      → (r ≡ developer_retry) ⊎ (r ≡ reviewer_protocol_retry)
      → (content : String) × (route_verdict lib s content ≡ r)
  unfolding route_reviewer
  by_verdict s r h back = elim (Bool-cases s.budget_exceeded) [
    | inl e ↦ absurd (ground (arith, e))
    | inr e ↦ elim (Option-cases (last? s.messages)) [
      | inl n ↦ absurd (ground (arith, e, n))
      | inr (m, n) ↦ elim (Bool-cases (has_tool_calls m)) [
        | inl c ↦ absurd (ground (arith, e, n, c))
        | inr c ↦ (get_message_text (content_of m), ground (arith, e, n, c))
      ]
    ]
  ]

  retried :
      (s t : State)
      → developer_retry_node raw_decode strip decimal s ≡ some t
      → (t.retry_count ≡ s.retry_count + 1) × (t.review_protocol_errors ≡ s.review_protocol_errors)
  unfolding developer_retry_node
  retried s t h = elim (Option-cases (reopen_tasks_after_review raw_decode strip s)) [
    | inl e ↦ absurd (ground (arith, e))
    | inr (ex, e) ↦ (ground (arith, e), ground (arith, e))
  ]

  -- Each time a review sends the run back, to the Developer or to the Reviewer, a retry is used up:
  -- of the three and the two that a run has, fewer are left.
  pub SentBack-fewer : {s t : State} → SentBack s t → chances_left t < chances_left s
  unfolding reviewer_protocol_retry_node
  SentBack-fewer (to_developer s t r h) =
      let (content, v) = by_verdict s developer_retry r (inl refl) in
      let below = verdict-developer s content v in let (count, same) = retried s t h in omega arith
  SentBack-fewer (to_reviewer s r) =
      let (content, v) = by_verdict s reviewer_protocol_retry r (inr refl) in
      let below = verdict-reviewer s content v in omega arith
