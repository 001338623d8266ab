-- ===== src/Verdicts/Endings.antt =====
-- How a review ends (backend/agent/nodes.py, backend/agent/edges.py).
use refactor_agent.Common.{
  Bool-cases, Option-cases, List-cases, String, ◌≡◌, refl, sym, ap, ◌∙◌, inl, inr, true, some,
  some-injective, List, arith,
}
use refactor_agent.Messages.{get_message_text, mentions, Message, content_of, last?}
use refactor_agent.State.{State, review_success}
use refactor_agent.Evidence.{EvidenceLibrary, review_evidence_errors}
use refactor_agent.Evidence.Proof.{IsProven, review_evidence_errors-exact}
use refactor_agent.Verdicts.{
  end_failed, refuse_success, evidence_of, close_with, close_in, close_success,
  finalize_review_success_node,
}

module _ (lib : EvidenceLibrary) where
  -- The state in which a success leaves the run.
  abbrev pub succeed : (s : State) → IsProven lib s → List String → State
  succeed s p paths = record s {
    review_status = some review_success;
    review_evidence = some (evidence_of lib s p.latest paths);
  }

  -- The run's last message claims success, the evidence bears it out, and is what is kept.
  pub record IsSuccess (s : State) (t : State) : Type 0 where
    pub proven : IsProven lib s
    pub message : Message
    pub is_last : last? s.messages ≡ some message
    pub claims : mentions (get_message_text (content_of message)) "【REFACTOR_SUCCESS】" ≡ true
    pub paths : List String
    pub listed : lib.workspace_changed_paths proven.workspace ≡ some paths
    pub recorded : succeed s proven paths ≡ t

  close_success-close_with :
      (s : State) (p : IsProven lib s)
      → close_success lib s ≡ close_with lib s p.latest (lib.workspace_changed_paths p.workspace)
  unfolding close_success
  close_success-close_with s p =
      rw (p.is_latest, close_success)
        (ap (λ id. close_in lib s p.latest id) p.has_workspace
          ∙ (unfold close_in in rw p.is_named refl))

  pub close_success-IsSuccess :
      (s t : State) (p : IsProven lib s) (m : Message)
      → last? s.messages ≡ some m
      → mentions (get_message_text (content_of m)) "【REFACTOR_SUCCESS】" ≡ true
      → close_success lib s ≡ some t
      → IsSuccess s t
  unfolding close_with
  close_success-IsSuccess s t p m e claims h =
      let made : close_with lib s p.latest (lib.workspace_changed_paths p.workspace) ≡ some t =
        sym (close_success-close_with s p) ∙ h in
      elim (Option-cases (lib.workspace_changed_paths p.workspace)) [
        | inl n ↦ absurd (ground (arith, n, made))
        | inr (paths, l) ↦
            let got : some (succeed s p paths) ≡ some t =
              sym (ap (close_with lib s p.latest) l) ∙ made in
            record {
              proven = p;
              message = m;
              is_last = e;
              claims = claims;
              paths = paths;
              listed = l;
              recorded = some-injective (succeed s p paths) t got;
            }
      ]

  -- The review ends in success only where the last message claims it and the evidence is complete:
  -- changes, a passed test run on exactly these changes, and a workspace that is as it was tested; and
  -- the evidence that is kept is that test run's and that workspace's.
  pub finalize_review_success-proven :
      (s t : State)
      → finalize_review_success_node lib s ≡ some t
      → t.review_status ≡ some review_success
      → IsSuccess s t
  unfolding finalize_review_success_node end_failed refuse_success
  finalize_review_success-proven s t h ok = elim (Option-cases (last? s.messages)) [
    | inl n ↦ absurd (ground (arith, n))
    | inr (m, e) ↦ elim (List-cases (review_evidence_errors lib s)) [
      | inr (x, xs, bad) ↦ absurd (ground (arith, e, bad))
      | inl good ↦
          let p = (review_evidence_errors-exact lib s).0 good in
          elim (Bool-cases (mentions (get_message_text (content_of m)) "【REFACTOR_SUCCESS】")) [
            | inr silent ↦ absurd (ground (arith, e, good, silent))
            | inl claims ↦
                let r : close_success lib s ≡ some t = ground (arith, e, good, claims) in
                close_success-IsSuccess s t p m e claims r
          ]
    ]
  ]
