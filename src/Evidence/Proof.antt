-- ===== src/Evidence/Proof.antt =====
-- What the review's evidence shows where there is no error (backend/agent/state.py,
-- review_evidence_errors).
use refactor_agent.Common.{
  Bool-cases, Option-cases, ℤ, is_zero, pos, negsuc, zero, suc, String, ◌≡◌, refl, sym, ap, subst,
  ◌∙◌, ◌≢◌, ◌↔◌, ◌⊎◌, inl, inr, Bool, true, false, not, ◌||◌, Option, none, some, List, [], ◌∷◌,
  ◌++◌, arith, ◌==◌, eq_iff, eq_refl,
}
use refactor_agent.Messages.{join_text, last?}
use refactor_agent.State.{ChangeRecord, TestRunRecord, State}
use refactor_agent.Evidence.{
  EvidenceLibrary, note, compute_change_set_digest, test_errors, workspace_errors,
  review_evidence_errors,
}

note-nil :
    (test : Bool) (message : String) (errors : List String)
    → note test message errors ≡ []
    → (test ≡ false) × (errors ≡ [])
unfolding note
note-nil true message [] h = absurd (ground arith)
note-nil true message (e ∷ es) h = absurd (ground arith)
note-nil false message errors h = (refl, h)

append-none : (xs ys : List String) → xs ++ ys ≡ [] → (xs ≡ []) × (ys ≡ [])
append-none [] ys h = (refl, h)
append-none (x ∷ xs) ys h = absurd (ground arith)

zero_of_is_zero : (n : ℤ) → is_zero n ≡ true → n ≡ pos 0
zero_of_is_zero (pos zero) h = refl
zero_of_is_zero (pos (suc n)) h = absurd (ground arith)
zero_of_is_zero (negsuc n) h = absurd (ground arith)

Sum-cases : (x : String ⊎ String) → ((a : String) × (x ≡ inl a)) ⊎ ((b : String) × (x ≡ inr b))
Sum-cases (inl a) = inl (a, refl)
Sum-cases (inr b) = inr (b, refl)

Records-cases :
    (xs : List ChangeRecord)
    → (xs ≡ []) ⊎ ((y : ChangeRecord) × (ys : List ChangeRecord) × (xs ≡ y ∷ ys))
Records-cases [] = inl refl
Records-cases (y ∷ ys) = inr (y, ys, refl)

module _ (lib : EvidenceLibrary) where
  open lib use {snapshot_digest, decimal}

  -- The test run passed, on these changes, with all that a success must show.
  pub record IsPassed (change_records : List ChangeRecord) (r : TestRunRecord) : Type 0 where
    pub succeeded : r.success ≡ true
    pub exit_zero : r.exit_code ≡ pos 0
    pub of_changes : r.change_set_digest ≡ compute_change_set_digest lib change_records
    pub stable : r.workspace_stable ≡ true
    pub contract : r.behavior_contract_included ≡ true
    pub marker : r.success_marker_present ≡ true

  -- There are changes; the latest test run passed on them; and the workspace is as it was tested.
  pub record IsProven (s : State) : Type 0 where
    pub changed : s.change_records ≢ []
    pub latest : TestRunRecord
    pub is_latest : last? s.test_run_records ≡ some latest
    pub passed : IsPassed s.change_records latest
    pub workspace : String
    pub has_workspace : s.workspace_id ≡ some workspace
    pub is_named : (workspace == "") ≡ false
    pub unchanged : snapshot_digest workspace ≡ inl latest.workspace_snapshot_digest

  test_errors-nil :
      (changes : List ChangeRecord) (r : TestRunRecord)
      → test_errors lib changes r ≡ []
      → IsPassed changes r
  unfolding test_errors
  test_errors-nil changes r h =
      let digest = compute_change_set_digest lib changes in
      let e1 = note (not (r.change_set_digest == digest)) "最新变更集合尚未测试，已有测试证据已失效" [] in
      let t2 = not (is_zero r.exit_code) || not r.success in
      let m2 = join_text ("最新测试未通过（退出码 " ∷ decimal r.exit_code ∷ "）" ∷ []) in
      let e2 = note t2 m2 e1 in
      let e3 = note (not r.workspace_stable) "测试过程改变了受管理源码，测试证据无效" e2 in
      let m4 : String = "最新测试套件未包含可信 CodeSmells 行为契约" in
      let e4 = note (not r.behavior_contract_included) m4 e3 in
      let (marker, h4) = note-nil (not r.success_marker_present) "最新测试记录缺少成功标记" e4 h in
      let (contract, h3) = note-nil (not r.behavior_contract_included) m4 e3 h4 in
      let (stable, h2) = note-nil (not r.workspace_stable) "测试过程改变了受管理源码，测试证据无效" e2 h3 in
      let (passed, h1) = note-nil t2 m2 e1 h2 in
      let (of_changes, _) =
        note-nil (not (r.change_set_digest == digest)) "最新变更集合尚未测试，已有测试证据已失效" [] h1 in
      record {
        succeeded = ground (arith, passed);
        exit_zero = zero_of_is_zero r.exit_code (ground (arith, passed));
        of_changes =
            (eq_iff r.change_set_digest (compute_change_set_digest lib changes)).0
              (ground (arith, of_changes));
        stable = ground (arith, stable);
        contract = ground (arith, contract);
        marker = ground (arith, marker);
      }

  passed-test_errors :
      (changes : List ChangeRecord) (r : TestRunRecord)
      → IsPassed changes r
      → test_errors lib changes r ≡ []
  unfolding test_errors note
  passed-test_errors changes r p = ground (
    arith,
    p.marker,
    p.contract,
    p.stable,
    p.succeeded,
    ap is_zero p.exit_zero,
    (eq_iff r.change_set_digest (compute_change_set_digest lib changes)).1 p.of_changes,
  )

  workspace_errors-nil :
      (id : Option String) (r : TestRunRecord)
      → workspace_errors lib id r ≡ []
      → (workspace : String) × (id ≡ some workspace)
        × ((workspace == "") ≡ false)
        × (snapshot_digest workspace ≡ inl r.workspace_snapshot_digest)
  unfolding workspace_errors
  workspace_errors-nil none r h = absurd (ground arith)
  workspace_errors-nil (some id) r h = elim (Bool-cases (id == "")) [
    | inl e ↦ absurd (ground (arith, e))
    | inr e ↦ elim (Sum-cases (snapshot_digest id)) [
      | inr (exc, n) ↦ absurd (ground (arith, e, n))
      | inl (digest, n) ↦ elim (Bool-cases (r.workspace_snapshot_digest == digest)) [
        | inr ne ↦ absurd (ground (arith, e, n, ne))
        | inl y ↦ (id, refl, e, n ∙ ap inl (sym ((eq_iff r.workspace_snapshot_digest digest).0 y)))
      ]
    ]
  ]

  unchanged-workspace_errors :
      (id : String) (r : TestRunRecord)
      → (id == "") ≡ false
      → snapshot_digest id ≡ inl r.workspace_snapshot_digest
      → workspace_errors lib (some id) r ≡ []
  unfolding workspace_errors
  unchanged-workspace_errors id r e n =
      rw e (rw (n, workspace_errors) (rw (eq_refl r.workspace_snapshot_digest) refl))

  none-IsProven : (s : State) → review_evidence_errors lib s ≡ [] → IsProven s
  unfolding review_evidence_errors
  none-IsProven s h = elim (Records-cases s.change_records) [
    | inl e ↦ absurd (ground (arith, e))
    | inr (c, cs, e) ↦ elim (Option-cases (last? s.test_run_records)) [
      | inl n ↦ absurd (ground (arith, e, n))
      | inr (latest, n) ↦
          let both : test_errors lib (c ∷ cs) latest ++ workspace_errors lib s.workspace_id latest
              ≡ [] =
            ground (arith, e, n) in
          let (tested, placed) = append-none _ _ both in
          let (id, has, named, unchanged) = workspace_errors-nil s.workspace_id latest placed in
          record {
            changed = λ empty. ground (arith, e);
            latest = latest;
            is_latest = n;
            passed =
                subst (λ changes. IsPassed changes latest) (sym e)
                  (test_errors-nil (c ∷ cs) latest tested);
            workspace = id;
            has_workspace = has;
            is_named = named;
            unchanged = unchanged;
          }
    ]
  ]

  proven-none : (s : State) → IsProven s → review_evidence_errors lib s ≡ []
  unfolding review_evidence_errors
  proven-none s p = elim (Records-cases s.change_records) [
    | inl e ↦ absurd (p.changed e)
    | inr (c, cs, e) ↦
        let tested = passed-test_errors s.change_records p.latest p.passed in
        let placed = unchanged-workspace_errors p.workspace p.latest p.is_named p.unchanged in
        rw (e, review_evidence_errors)
          (rw (p.is_latest, review_evidence_errors)
            (rw (← e) (rw tested (rw p.has_workspace placed))))
  ]

  -- `review_evidence_errors` finds nothing exactly if there are changes, the latest test run passed
  -- with exit code 0 on exactly these changes, left the sources as they were, included the behaviour
  -- contract and printed its marker, and the workspace still has the digest that was tested.
  pub review_evidence_errors-exact : (s : State) → (review_evidence_errors lib s ≡ []) ↔ IsProven s
  review_evidence_errors-exact s = (none-IsProven s, proven-none s)
