-- ===== src/Statuses.antt =====
-- backend/agent/run_status.py: the registry of the runs' public status, bounded in time and in size.
-- A method takes the registry and returns its result with the registry it leaves; the lock makes each
-- one a step. Time is a whole number of ticks, and the clock's reading an argument.
pub mod Names
pub mod Sizes
pub mod Capacity
pub mod Reading
use refactor_agent.Common.{
  leb, if◌then◌else◌, take, ℕ, ◌+◌, ◌-◌, String, Bool, false, not, Option, none, some, List, [],
  ◌∷◌, ◌==◌,
}
use refactor_agent.Dict
use refactor_agent.Dict.{Dict}
use refactor_agent.Reviews.{pop_all}

pub data LifecycleStatus : Type 0 where
  run_running waiting_for_hitl cancelling cleanup_pending : LifecycleStatus
  cleanup_completed cleanup_failed run_completed run_failed : LifecycleStatus

pub data TerminalStatus : Type 0 where
  ended_completed ended_failed : TerminalStatus

-- The failure of an apply is a mapping that the registry only hands on; here a text.
pub record RunStatusSnapshot : Type 0 where
  pub run_id : String
  pub lifecycle_status : LifecycleStatus
  pub terminal_status : Option TerminalStatus
  pub termination_reason : Option String
  pub workspace_retained : Bool
  pub cleanup_errors : List String
  pub apply_failure : Option String

pub record StatusRecord : Type 0 where
  pub thread_id : String
  pub expires_at : ℕ
  pub snapshot : RunStatusSnapshot
  pub updated_at : ℕ

-- The arguments of `update`; none leaves the field as it is.
pub record Change : Type 0 where
  pub lifecycle_status : Option LifecycleStatus
  pub terminal_status : Option TerminalStatus
  pub termination_reason : Option String
  pub workspace_retained : Option Bool
  pub cleanup_errors : Option (List String)
  pub apply_failure : Option String

-- `sorted(records.items(), key=updated_at)`, which keeps the order of equals: the keys.
pub insert_by_age : String → ℕ → List (String × ℕ) → List (String × ℕ)
insert_by_age k n [] = (k, n) ∷ []
insert_by_age k n ((j, m) ∷ xs) =
    let rest = insert_by_age k n xs in if leb n m then (k, n) ∷ (j, m) ∷ xs else (j, m) ∷ rest

pub by_age : Dict StatusRecord → List (String × ℕ)
unfolding insert_by_age
by_age [] = []
by_age ((k, r) ∷ d) = insert_by_age k r.updated_at (by_age d)

pub names_of {ℓ} : {A : Type ℓ} → List (String × A) → List String
names_of [] = []
names_of ((k, a) ∷ xs) = k ∷ names_of xs

-- `new if new is not None else old`
unfoldable or_else {ℓ} : {A : Type ℓ} → Option A → A → A
or_else none a = a
or_else (some b) a = b

unfoldable or_keep {ℓ} : {A : Type ℓ} → Option A → Option A → Option A
or_keep none a = a
or_keep (some b) a = some b

unfoldable first_errors : Option (List String) → List String → List String
first_errors none old = old
first_errors (some errors) old = take 8 errors

unfoldable change_snapshot : Change → RunStatusSnapshot → RunStatusSnapshot
unfolding or_else or_keep first_errors
change_snapshot c s = record {
  run_id = s.run_id;
  lifecycle_status = or_else c.lifecycle_status s.lifecycle_status;
  terminal_status = or_keep c.terminal_status s.terminal_status;
  termination_reason = or_keep c.termination_reason s.termination_reason;
  workspace_retained = or_else c.workspace_retained s.workspace_retained;
  cleanup_errors = first_errors c.cleanup_errors s.cleanup_errors;
  apply_failure = or_keep c.apply_failure s.apply_failure;
}

module _ (ttl_seconds capacity : ℕ) where
  -- The records that have not expired, without the oldest beyond the capacity; `reserved` is the
  -- number of slots to leave free.
  pub prune : ℕ → ℕ → Dict StatusRecord → Dict StatusRecord
  unfolding by_age names_of
  prune now reserved rs =
      let live = Dict.keep (λ r. not (leb r.expires_at now)) rs in
      pop_all (take (Dict.size live + reserved - capacity) (names_of (by_age live))) live

  -- The record of a run that starts now.
  pub fresh_record : ℕ → String → String → StatusRecord
  fresh_record now run_id thread_id = record {
    thread_id = thread_id;
    expires_at = now + ttl_seconds;
    snapshot = record {
      run_id = run_id;
      lifecycle_status = run_running;
      terminal_status = none;
      termination_reason = none;
      workspace_retained = false;
      cleanup_errors = [];
      apply_failure = none;
    };
    updated_at = now;
  }

  pub start : ℕ → String → String → Dict StatusRecord → RunStatusSnapshot × Dict StatusRecord
  unfolding prune fresh_record
  start now run_id thread_id rs =
      let r = fresh_record now run_id thread_id in (r.snapshot, Dict.put run_id r (prune now 1 rs))

  -- `update`, for the record that was found.
  pub update_found :
      ℕ
      → String
      → Change
      → Option StatusRecord
      → Dict StatusRecord
      → Option RunStatusSnapshot × Dict StatusRecord
  unfolding change_snapshot
  update_found now run_id c none rs = (none, rs)
  update_found now run_id c (some r) rs =
      let snapshot = change_snapshot c r.snapshot in
      (
        some snapshot,
        Dict.put run_id
            (record r { snapshot = snapshot; updated_at = now; expires_at = now + ttl_seconds }) rs,
      )

  pub update :
      ℕ → String → Change → Dict StatusRecord → Option RunStatusSnapshot × Dict StatusRecord
  unfolding prune update_found
  update now run_id c rs =
      let live = prune now 0 rs in update_found now run_id c (Dict.get run_id live) live

  pub read_for : String → Option StatusRecord → Option RunStatusSnapshot
  read_for thread_id none = none
  read_for thread_id (some r) = if r.thread_id == thread_id then some r.snapshot else none

  pub get_status :
      ℕ → String → String → Dict StatusRecord → Option RunStatusSnapshot × Dict StatusRecord
  unfolding prune read_for
  get_status now run_id thread_id rs =
      let live = prune now 0 rs in (read_for thread_id (Dict.get run_id live), live)

  pub count : ℕ → Dict StatusRecord → ℕ × Dict StatusRecord
  unfolding prune
  count now rs = let live = prune now 0 rs in (Dict.size live, live)

  -- One call of a method.
  pub data Call : Type 0 where
    starts : (now : ℕ) (run_id thread_id : String) → Call
    updates : (now : ℕ) (run_id : String) (c : Change) → Call
    reads : (now : ℕ) (run_id thread_id : String) → Call
    counts : (now : ℕ) → Call

  pub call : Call → Dict StatusRecord → Dict StatusRecord
  unfolding start update get_status count
  call (starts now run_id thread_id) rs = (start now run_id thread_id rs).1
  call (updates now run_id c) rs = (update now run_id c rs).1
  call (reads now run_id thread_id) rs = (get_status now run_id thread_id rs).1
  call (counts now) rs = (count now rs).1

  pub call_each : List Call → Dict StatusRecord → Dict StatusRecord
  unfolding call
  call_each [] rs = rs
  call_each (c ∷ cs) rs = call_each cs (call c rs)
