-- ===== src/Sessions.antt =====
-- backend/session_registry.py: the short-lived sessions of one process. A method takes the
-- registry and returns its result, or the exception it raises, with the registry it leaves.
-- `require` and the block under the lock behind it are two critical sections, so each method
-- that authorises first is the composition of two actions. Time is a whole number of ticks; the
-- clock's reading and the random tokens are arguments. The digest (sha256) is a parameter.
pub mod Invariant
pub mod Methods
pub mod Leases
pub mod Approval
use refactor_agent.Common.{
  leb, if◌then◌else◌, is_set, holds, ℕ, ◌+◌, String, Bool, true, false, not, ◌&&◌, Option, none,
  some, List, [], ◌∷◌, ◌==◌,
}
use refactor_agent.Dict
use refactor_agent.Dict.{Dict}

pub record SessionRecord : Type 0 where
  pub token_digest : String
  pub expires_at : ℕ
  pub approval_id : Option String
  pub approval_decision : Option Bool
  pub active_run_id : Option String

abbrev pub Registry : Type 0
Registry = Dict SessionRecord

-- `key_error` is Python's own, for a record that another thread removed between two sections.
pub data SessionError : Type 0 where
  session_authorization approval_state run_state key_error : SessionError

pub data Outcome {ℓ} (A : Type ℓ) : Type ℓ where
  ok : A → Outcome A
  err : SessionError → Outcome A

abbrev pub Action {ℓ} : Type ℓ → Type ℓ
Action A = Registry → Outcome A × Registry

-- The exception ends the method.
abbrev pub and_then {ℓ} :
    {B : Type ℓ} → Outcome (Unit {0}) × Registry → Action B → Outcome B × Registry
and_then (ok _, rs) k = k rs
and_then (err e, rs) k = (err e, rs)

infixl 5 ◌>>◌
abbrev pub ◌>>◌ {ℓ} : {B : Type ℓ} → Action (Unit {0}) → Action B → Action B
◌>>◌ m k rs = and_then (m rs) k

-- `record.expires_at <= now` is the test for removal.
unfoldable pub prune_expired : ℕ → Registry → Registry
prune_expired now = Dict.keep (λ r. not (leb r.expires_at now))

-- A block that looks `self._records[thread_id]` up and mutates the record.
pub on_found {ℓ} :
    {A : Type ℓ}
    → String
    → (SessionRecord → Outcome A × SessionRecord)
    → Option SessionRecord
    → Action A
on_found thread_id body none rs = (err key_error, rs)
on_found thread_id body (some r) rs =
    let (result, r') = body r in (result, Dict.put thread_id r' rs)

unfoldable pub with_record {ℓ} :
    {A : Type ℓ} → String → (SessionRecord → Outcome A × SessionRecord) → Action A
unfolding on_found
with_record thread_id body rs = on_found thread_id body (Dict.get thread_id rs) rs

-- The three assignments that release a lease.
abbrev pub release : SessionRecord → SessionRecord
release r = record r { active_run_id = none; approval_id = none; approval_decision = none }

pub begin_run_body : String → SessionRecord → Outcome String × SessionRecord
begin_run_body fresh r = elim r.active_run_id [
  | none ↦ (ok fresh, record r { active_run_id = some fresh })
  | some _ ↦ (err run_state, r)
]

pub require_active_body : SessionRecord → Outcome String × SessionRecord
require_active_body r = elim r.active_run_id [
  | none ↦ (err run_state, r)
  | some run_id ↦ (ok run_id, r)
]

pub finish_run_body : String → SessionRecord → Outcome Bool × SessionRecord
finish_run_body run_id r =
    if holds r.active_run_id run_id then (ok true, release r) else (ok false, r)

-- `record.approval_id and record.approval_decision is None`
pub pending_approval : SessionRecord → Option String
pending_approval r = elim r.approval_decision [
  | none ↦ if is_set r.approval_id then r.approval_id else none
  | some _ ↦ none
]

pub begin_approval_body : String → String → SessionRecord → Outcome String × SessionRecord
unfolding pending_approval
begin_approval_body run_id fresh r =
    if holds r.active_run_id run_id
    then elim (pending_approval r) [
      | some id ↦ (ok id, r)
      | none ↦ (ok fresh, record r { approval_id = some fresh; approval_decision = none })
    ]
    else (err run_state, r)

pub same_decision : Bool → Bool → Bool
same_decision true b = b
same_decision false b = not b

-- `compare_digest` raises TypeError for a text that is not ASCII, which no id of `token_urlsafe` is;
-- here it is one that names another approval.
pub decide_body : String → Bool → SessionRecord → Outcome (Unit {0}) × SessionRecord
unfolding same_decision
decide_body approval_id approved r =
    if is_set r.approval_id && holds r.approval_id approval_id
    then elim r.approval_decision [
      | some earlier ↦
          if same_decision earlier approved then (ok tt, r) else (err approval_state, r)
      | none ↦ (ok tt, record r { approval_decision = some approved })
    ]
    else (err approval_state, r)

pub record Decision : Type 0 where
  pub approval : String
  pub approved : Bool
  pub run : String

-- The approval and the decision of a record, if both are there.
unfoldable decided : SessionRecord → Option (String × Bool)
decided r = elim r.approval_id [
  | none ↦ none
  | some id ↦ elim r.approval_decision [
    | none ↦ none
    | some approved ↦ if id == "" then none else some (id, approved)
  ]
]

unfoldable pub consume_decision_body : SessionRecord → Outcome (Option Decision) × SessionRecord
unfolding decided
consume_decision_body r = elim (decided r) [
  | none ↦ (ok none, r)
  | some (id, approved) ↦ elim r.active_run_id [
    | none ↦ (err run_state, r)
    | some run_id ↦ (
      ok (some (record { approval = id; approved = approved; run = run_id })),
      record r { approval_id = none; approval_decision = none },
    )
  ]
]

-- `is_resumable_approval`: reads only.
pub is_resumable_approval : String → String → String → Registry → Bool
unfolding pending_approval
is_resumable_approval thread_id run_id approval_id rs = elim (Dict.get thread_id rs) [
  | none ↦ false
  | some r ↦ holds r.active_run_id run_id && holds (pending_approval r) approval_id
]

-- `finish_owned_run`: one section, no token and no pruning.
pub finish_owned_run : String → String → Action Bool
finish_owned_run thread_id run_id rs = elim (Dict.get thread_id rs) [
  | none ↦ (ok false, rs)
  | some r ↦
      if holds r.active_run_id run_id
      then (ok true, Dict.put thread_id (release r) rs)
      else (ok false, rs)
]

module _ (digest : String → String) (ttl_seconds : ℕ) where
  pub create : ℕ → String → String → Registry → Registry
  create now thread_id session_token rs =
      Dict.put thread_id
        (record {
          token_digest = digest session_token;
          expires_at = now + ttl_seconds;
          approval_id = none;
          approval_decision = none;
          active_run_id = none;
        })
        (prune_expired now rs)

  pub authorise : ℕ → String → String → Option SessionRecord → Action (Unit {0})
  authorise now thread_id session_token none rs = (err session_authorization, rs)
  authorise now thread_id session_token (some r) rs =
      if r.token_digest == digest session_token
      then (ok tt, Dict.put thread_id (record r { expires_at = now + ttl_seconds }) rs)
      else (err session_authorization, rs)

  unfoldable pub require : ℕ → String → String → Action (Unit {0})
  unfolding authorise
  require now thread_id session_token rs =
      let live = prune_expired now rs in
      authorise now thread_id session_token (Dict.get thread_id live) live

  module _ (now : ℕ) (thread_id session_token : String) where
    pub begin_run : String → Action String
    begin_run fresh =
        require now thread_id session_token >> with_record thread_id (begin_run_body fresh)

    pub require_active_run : Action String
    require_active_run =
        require now thread_id session_token >> with_record thread_id require_active_body

    pub finish_run : String → Action Bool
    finish_run run_id =
        require now thread_id session_token >> with_record thread_id (finish_run_body run_id)

    pub begin_approval : String → String → Action String
    begin_approval run_id fresh =
        require now thread_id session_token
        >> with_record thread_id (begin_approval_body run_id fresh)

    pub decide : String → Bool → Action (Unit {0})
    decide approval_id approved =
        require now thread_id session_token
        >> with_record thread_id (decide_body approval_id approved)

    unfoldable pub consume_decision : Action (Option Decision)
    consume_decision =
        require now thread_id session_token >> with_record thread_id consume_decision_body

-- One critical section of one thread. A schedule is any list of them, whatever the threads.
pub data Section : Type 0 where
  creates : (now : ℕ) (thread_id session_token : String) → Section
  requires : (now : ℕ) (thread_id session_token : String) → Section
  begins_run : (thread_id fresh : String) → Section
  reads_run : (thread_id : String) → Section
  finishes_run finishes_owned : (thread_id run_id : String) → Section
  begins_approval : (thread_id run_id fresh : String) → Section
  decides : (thread_id approval_id : String) (approved : Bool) → Section
  consumes : (thread_id : String) → Section

module _ (digest : String → String) (ttl_seconds : ℕ) where
  pub perform : Section → Registry → Registry
  perform (creates now t s) rs = create digest ttl_seconds now t s rs
  perform (requires now t s) rs = (require digest ttl_seconds now t s rs).1
  perform (begins_run t fresh) rs = (with_record t (begin_run_body fresh) rs).1
  perform (reads_run t) rs = (with_record t require_active_body rs).1
  perform (finishes_run t run_id) rs = (with_record t (finish_run_body run_id) rs).1
  perform (finishes_owned t run_id) rs = (finish_owned_run t run_id rs).1
  perform (begins_approval t run_id fresh) rs =
      (with_record t (begin_approval_body run_id fresh) rs).1
  perform (decides t id approved) rs = (with_record t (decide_body id approved) rs).1
  perform (consumes t) rs = (with_record t consume_decision_body rs).1

  pub perform_all : List Section → Registry → Registry
  perform_all [] rs = rs
  perform_all (s ∷ ss) rs = perform_all ss (perform s rs)
