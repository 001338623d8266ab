-- ===== src/Evidence.antt =====
-- backend/agent/state.py: the records that the write tool and the test tool leave in the state, and
-- what a successful review must be able to show. `json.dumps`, SHA-256, the decimal digits of a
-- number and the snapshot of the workspace (which reads files; a text tells why it failed) are
-- parameters.
pub mod Proof
use refactor_agent.Common.{
  leb, if◌then◌else◌, ℤ, is_zero, length, ℕ, String, ◌⊎◌, inl, inr, Bool, not, ◌||◌, Option, none,
  some, List, [], ◌∷◌, ◌++◌, ◌==◌,
}
use refactor_agent.Messages.{join_text, last?}
use refactor_agent.State.{ChangeRecord, TestRunRecord, State}

abbrev pub max_change_records : ℕ
max_change_records = 12

abbrev pub max_test_run_records : ℕ
max_test_run_records = 12

-- `xs[-n:]`, for n above 0.
unfoldable take_last {ℓ} : {A : Type ℓ} → ℕ → List A → List A
take_last n [] = []
take_last n (x ∷ xs) = let rest = take_last n xs in if leb (length (x ∷ xs)) n then x ∷ xs else rest

-- Both merges: an empty update clears the records.
unfoldable merge_records {ℓ} : {A : Type ℓ} → ℕ → List A → List A → List A
unfolding take_last
merge_records bound existing [] = []
merge_records bound existing (u ∷ updates) = take_last bound (existing ++ u ∷ updates)

unfoldable merge_change_records : List ChangeRecord → List ChangeRecord → List ChangeRecord
unfolding merge_records
merge_change_records existing updates = merge_records max_change_records existing updates

unfoldable merge_test_run_records : List TestRunRecord → List TestRunRecord → List TestRunRecord
unfolding merge_records
merge_test_run_records existing updates = merge_records max_test_run_records existing updates

-- What the digest of the changes is taken of.
pub record DigestEntry : Type 0 where
  pub file_path : String
  pub before_sha256 : String
  pub after_sha256 : String

unfoldable digest_payload : List ChangeRecord → List DigestEntry
digest_payload [] = []
digest_payload (c ∷ cs) =
    record {
      file_path = c.file_path;
      before_sha256 = c.before_sha256;
      after_sha256 = c.after_sha256;
    }
    ∷ digest_payload cs

pub record EvidenceLibrary : Type 0 where
  pub dumps : List DigestEntry → String
  pub sha256 : String → String
  pub decimal : ℤ → String
  -- `build_workspace_snapshot(workspace_id)["digest"]`, or the exception's text.
  pub snapshot_digest : String → String ⊎ String
  -- none where it raises.
  pub workspace_changed_paths : String → Option (List String)

-- `errors.append(message)`, if the test holds.
pub note : Bool → String → List String → List String
note test message errors = if test then errors ++ message ∷ [] else errors

module _ (lib : EvidenceLibrary) where
  open lib use {dumps, sha256, decimal, snapshot_digest}

  pub compute_change_set_digest : List ChangeRecord → String
  unfolding digest_payload
  compute_change_set_digest change_records = sha256 (dumps (digest_payload change_records))

  -- The tests on the latest record of a test run.
  pub test_errors : List ChangeRecord → TestRunRecord → List String
  unfolding note compute_change_set_digest
  test_errors change_records latest = note (not latest.success_marker_present) "最新测试记录缺少成功标记" (
      note (not latest.behavior_contract_included) "最新测试套件未包含可信 CodeSmells 行为契约" (
        note (not latest.workspace_stable) "测试过程改变了受管理源码，测试证据无效" (
          note (not (is_zero latest.exit_code) || not latest.success)
            (join_text ("最新测试未通过（退出码 " ∷ decimal latest.exit_code ∷ "）" ∷ []))
            (note (not (latest.change_set_digest == compute_change_set_digest change_records))
              "最新变更集合尚未测试，已有测试证据已失效" []))))

  -- The comparison with the workspace as it is now.
  pub workspace_errors : Option String → TestRunRecord → List String
  workspace_errors none latest = "运行缺少隔离工作区，无法复核测试快照" ∷ []
  workspace_errors (some id) latest =
      if id == "" then "运行缺少隔离工作区，无法复核测试快照" ∷ [] else elim (snapshot_digest id) [
        | inr exc ↦ join_text ("无法复核当前工作区快照: " ∷ exc ∷ []) ∷ []
        | inl digest ↦
            if latest.workspace_snapshot_digest == digest then [] else "当前工作区已偏离成功测试绑定的完整快照" ∷ []
      ]

  unfoldable pub review_evidence_errors : State → List String
  unfolding test_errors workspace_errors
  review_evidence_errors s = elim s.change_records [
    | [] ↦ "没有成功写入记录" ∷ []
    | c ∷ cs ↦ elim (last? s.test_run_records) [
      | none ↦ "尚未运行自动化测试" ∷ []
      | some latest ↦ test_errors (c ∷ cs) latest ++ workspace_errors s.workspace_id latest
    ]
  ]
