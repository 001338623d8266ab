-- ===== src/Examples/Sessions.antt =====
-- Sessions with a run, an approval and a decision (backend/session_registry.py).
use refactor_agent.Common.{
  if◌then◌else◌, ◌<◌, String, ◌≡◌, refl, ◌≢◌, ◌↔◌, true, false, none, some, List, [], ◌∷◌, arith,
  eq_iff,
}
use refactor_agent.Dict
use refactor_agent.Dict.{Dict}
use refactor_agent.Sessions.{
  SessionRecord, Registry, prune_expired, with_record, same_decision, consume_decision_body,
  is_resumable_approval, require, begin_run, require_active_run, finish_run, begin_approval, decide,
  consume_decision, Section, perform_all, approval_state, run_state, ok, err, creates, requires,
  begins_run, begins_approval, decides,
}
use refactor_agent.Sessions.Invariant.{IsConsistent, perform_all-IsConsistent, consume-ne-run_state}
use refactor_agent.Sessions.Methods.{IsAuthorised, require-ok_iff}
use refactor_agent.Sessions.Leases.{begin_run_twice, finish_run_own}
use refactor_agent.Sessions.Approval.{
  decide_twice, decide-consume_decision, consume_decision_once, begin_approval_again,
}

abbrev plain : String → String
plain s = s

abbrev idle : SessionRecord
idle = record {
  token_digest = "token";
  expires_at = 10;
  approval_id = none;
  approval_decision = none;
  active_run_id = none;
}

abbrev running : SessionRecord
running = record idle { active_run_id = some "r1" }

abbrev asked : SessionRecord
asked = record running { approval_id = some "p1" }

abbrev answered : SessionRecord
answered = record asked { approval_decision = some true }

abbrev only : SessionRecord → Registry
only r = ("t1", r) ∷ []

only-IsUnique : (r : SessionRecord) → Dict.IsUnique (only r)
unfolding Dict.get
only-IsUnique r = (refl, tt)

only-IsAuthorised :
    (r : SessionRecord)
    → 0 < r.expires_at
    → r.token_digest ≡ "token"
    → IsAuthorised plain 10 0 "t1" "token" (only r) r
unfolding Dict.get
only-IsAuthorised r live own = record { found = refl; live = live; own = own }

abbrev sections : List Section
sections =
    creates 0 "t1" "token"
    ∷ requires 1 "t1" "token"
    ∷ begins_run "t1" "r1"
    ∷ begins_approval "t1" "r1" "p1"
    ∷ decides "t1" "p1" true
    ∷ []

perform_all-IsConsistent_example : IsConsistent (perform_all plain 10 sections [])
perform_all-IsConsistent_example = perform_all-IsConsistent plain 10 sections

consume-ne-run_state_example :
    (with_record "t1" consume_decision_body (perform_all plain 10 sections [])).0 ≢ err run_state
consume-ne-run_state_example =
    consume-ne-run_state "t1" (perform_all plain 10 sections [])
      (perform_all-IsConsistent plain 10 sections)

require-ok_iff_example :
    ((require plain 10 0 "t1" "token" (only idle)).0 ≡ ok tt)
    ↔ ((r : SessionRecord) × IsAuthorised plain 10 0 "t1" "token" (only idle) r)
require-ok_iff_example = require-ok_iff plain 10 0 "t1" "token" (only idle) (only-IsUnique idle)

begin_run_twice_example :
    ((begin_run plain 10 0 "t1" "token" "r1" (only idle)).0 ≡ ok "r1")
    × ((begin_run plain 10 5 "t1" "token" "r2"
          (begin_run plain 10 0 "t1" "token" "r1" (only idle)).1).0
        ≡ err run_state)
begin_run_twice_example =
    begin_run_twice plain 10 0 5 "t1" "token" (only idle) (only-IsUnique idle)
      (only-IsAuthorised idle (omega arith) refl) (omega arith) "r1" "r2" refl

finish_run_own_example :
    ((finish_run plain 10 0 "t1" "token" "r2" (only running)).0 ≡ ok false)
    × ((require_active_run plain 10 5 "t1" "token"
          (finish_run plain 10 0 "t1" "token" "r2" (only running)).1).0
        ≡ ok "r1")
    × ((finish_run plain 10 0 "t1" "token" "r1" (only running)).0 ≡ ok true)
    × ((begin_run plain 10 5 "t1" "token" "r3"
          (finish_run plain 10 0 "t1" "token" "r1" (only running)).1).0
        ≡ ok "r3")
finish_run_own_example =
    finish_run_own plain 10 0 5 "t1" "token" (only running) (only-IsUnique running)
      (only-IsAuthorised running (omega arith) refl) (omega arith) "r1" "r2" "r3" refl
      (λ e. ground (arith, (eq_iff "r1" "r2").1 e))

decide_twice_example :
    ((decide plain 10 0 "t1" "token" "p1" true (only asked)).0 ≡ ok tt)
    × ((decide plain 10 5 "t1" "token" "p1" false
          (decide plain 10 0 "t1" "token" "p1" true (only asked)).1).0
        ≡ (if same_decision true false then ok tt else err approval_state))
    × ((q : SessionRecord) × (Dict.get "t1"
            (decide plain 10 5 "t1" "token" "p1" false
              (decide plain 10 0 "t1" "token" "p1" true (only asked)).1).1
          ≡ some q)
        × (q.approval_decision ≡ some true))
decide_twice_example =
    decide_twice plain 10 0 5 "t1" "token" (only asked) (only-IsUnique asked)
      (only-IsAuthorised asked (omega arith) refl) (omega arith) "p1" true false refl
      (λ e. ground (arith, (eq_iff "p1" "").1 e)) refl

begin_approval_again_example :
    ((begin_approval plain 10 0 "t1" "token" "r1" "p1" (only running)).0 ≡ ok "p1")
    × ((begin_approval plain 10 5 "t1" "token" "r1" "p2"
          (begin_approval plain 10 0 "t1" "token" "r1" "p1" (only running)).1).0
        ≡ ok "p1")
    × (is_resumable_approval "t1" "r1" "p1"
          (begin_approval plain 10 0 "t1" "token" "r1" "p1" (only running)).1
        ≡ true)
begin_approval_again_example =
    begin_approval_again plain 10 0 5 "t1" "token" (only running) (only-IsUnique running)
      (only-IsAuthorised running (omega arith) refl) (omega arith) "r1" "p1" "p2" refl refl
      (λ e. ground (arith, (eq_iff "p1" "").1 e))

decide-consume_decision_example :
    ((consume_decision plain 10 5 "t1" "token"
        (decide plain 10 0 "t1" "token" "p1" true (only asked)).1).0
      ≡ ok (some (record { approval = "p1"; approved = true; run = "r1" })))
    × ((q : SessionRecord) × (Dict.get "t1"
            (consume_decision plain 10 5 "t1" "token"
              (decide plain 10 0 "t1" "token" "p1" true (only asked)).1).1
          ≡ some q)
        × (q.approval_id ≡ none)
        × (q.active_run_id ≡ some "r1"))
decide-consume_decision_example =
    decide-consume_decision plain 10 0 5 "t1" "token" (only asked) (only-IsUnique asked)
      (only-IsAuthorised asked (omega arith) refl) (omega arith) "p1" "r1" true refl
      (λ e. ground (arith, (eq_iff "p1" "").1 e)) refl refl

consume_decision_once_example :
    (consume_decision plain 10 5 "t1" "token"
      (consume_decision plain 10 0 "t1" "token" (only answered)).1).0
    ≡ ok none
unfolding consume_decision consume_decision_body require prune_expired with_record Dict.get Dict.put
    Dict.keep
consume_decision_once_example =
    consume_decision_once plain 10 0 5 "t1" "token" (only answered) (only-IsUnique answered)
      (only-IsAuthorised answered (omega arith) refl) (omega arith)
      (record { approval = "p1"; approved = true; run = "r1" }) refl
