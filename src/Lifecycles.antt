-- ===== src/Lifecycles.antt =====
-- backend/agent/run_lifecycle.py: a run as the owner of its resources, and their release.
--
-- The calls that a lifecycle makes are kept in order: `released` lists the operations that
-- returned, `updates` the arguments of `run_statuses.update`. What an attempt meets is an argument:
-- whether the producer is still running when its time is up, what `resolve_workspace` says, and
-- which operations raise, by the name of the exception's class. A call of `cleanup` that comes
-- while a clean-up runs waits for that one and has its report, so the attempts stand one after the
-- other. Logging is left out.
pub mod Once
pub mod Outcomes
use refactor_agent.Common.{
  eqb, if◌then◌else◌, is_set, holds, select, text_length, String, ◌⊎◌, inl, inr, Bool, true, false,
  not, ◌&&◌, ◌||◌, Option, none, some, List, [], ◌∷◌, ◌++◌, ◌==◌,
}
use refactor_agent.Messages.{join_text}
use refactor_agent.Statuses
use refactor_agent.Statuses.{
  Change, waiting_for_hitl, cancelling, cleanup_pending, cleanup_completed, cleanup_failed,
  ended_completed, ended_failed,
}

-- `RunTermination`
pub data RunTermination : Type 0 where
  completed failed budget_exceeded_end disconnected generator_closed cancellation : RunTermination
  producer_cancelled hitl_paused hitl_approved hitl_rejected recovery_failed : RunTermination
  service_shutdown : RunTermination

unfoldable termination_value : RunTermination → String
termination_value completed = "completed"
termination_value failed = "failed"
termination_value budget_exceeded_end = "budget_exceeded"
termination_value disconnected = "disconnect"
termination_value generator_closed = "generator_closed"
termination_value cancellation = "cancellation"
termination_value producer_cancelled = "producer_cancelled"
termination_value hitl_paused = "hitl_paused"
termination_value hitl_approved = "hitl_approved"
termination_value hitl_rejected = "hitl_rejected"
termination_value recovery_failed = "recovery_failed"
termination_value service_shutdown = "service_shutdown"

pub record HitlRetention : Type 0 where
  pub workspace_id : String
  pub approval_id : String
  pub workspace_snapshot_digest : String

pub is_valid : HitlRetention → Bool
unfolding text_length
is_valid h =
    not (h.workspace_id == "")
    && not (h.approval_id == "")
    && eqb (text_length h.workspace_snapshot_digest) 64

-- The resources of a run.
pub data Resource : Type 0 where
  credential checkpoint lease workspace : Resource

unfoldable resource_name : Resource → String
resource_name credential = "credential"
resource_name checkpoint = "checkpoint"
resource_name lease = "lease"
resource_name workspace = "workspace"

pub record CleanupReport : Type 0 where
  pub reason : RunTermination
  pub producer_timed_out : Bool
  pub producer_error : Option String
  pub workspace_retained : Bool
  pub workspace_cleaned : Bool
  pub checkpoint_deleted : Bool
  pub lease_released : Bool
  pub credential_revoked : Bool
  pub cleanup_complete : Bool
  pub cleanup_errors : List String

pub record RunLifecycle : Type 0 where
  pub workspace_id : Option String
  pub hitl_retention : Option HitlRetention
  pub stop_requested : Bool
  pub has_producer : Bool
  pub producer_error : Option String
  pub credential_revoked : Bool
  pub checkpoint_deleted : Bool
  pub lease_released : Bool
  pub workspace_cleaned : Bool
  pub last_report : Option CleanupReport
  pub registered : Bool
  pub released : List Resource
  pub updates : List Change

-- What an attempt meets.
pub record Attempt : Type 0 where
  pub producer_runs : Bool
  -- `resolve_workspace()`, or the exception's class.
  pub resolved : Option String ⊎ String
  -- The class of the exception that the release raises, if it does.
  pub raises : Resource → Option String

pub flag : Resource → RunLifecycle → Bool
flag credential l = l.credential_revoked
flag checkpoint l = l.checkpoint_deleted
flag lease l = l.lease_released
flag workspace l = l.workspace_cleaned

pub set_flag : Resource → RunLifecycle → RunLifecycle
set_flag credential l = record l { credential_revoked = true }
set_flag checkpoint l = record l { checkpoint_deleted = true }
set_flag lease l = record l { lease_released = true }
set_flag workspace l = record l { workspace_cleaned = true }

unfoldable pub new_report : RunTermination → CleanupReport
new_report reason = record {
  reason = reason;
  producer_timed_out = false;
  producer_error = none;
  workspace_retained = false;
  workspace_cleaned = false;
  checkpoint_deleted = false;
  lease_released = false;
  credential_revoked = false;
  cleanup_complete = false;
  cleanup_errors = [];
}

abbrev pub unchanged : Change
unchanged = record {
  lifecycle_status = none;
  terminal_status = none;
  termination_reason = none;
  workspace_retained = none;
  cleanup_errors = none;
  apply_failure = none;
}

-- The lifecycle with the report of the attempt that runs.
abbrev pub Running : Type 0
Running = RunLifecycle × CleanupReport

-- `run_statuses.update`
unfoldable pub publish : Change → RunLifecycle → RunLifecycle
publish c l = record l { updates = l.updates ++ c ∷ [] }

unfoldable pub add_error : String → CleanupReport → CleanupReport
add_error e r = record r { cleanup_errors = r.cleanup_errors ++ e ∷ [] }

pub set_workspace : Option String → RunLifecycle → RunLifecycle
set_workspace none l = l
set_workspace (some id) l = if id == "" then l else record l { workspace_id = some id }

-- None where it raises ValueError.
pub retain_for_hitl : HitlRetention → RunLifecycle → Option RunLifecycle
unfolding is_valid publish
retain_for_hitl h l =
    if not (is_valid h)
    then none
    else some (
        publish
          (record unchanged {
            lifecycle_status = some waiting_for_hitl;
            workspace_retained = some true;
          })
          (record l { workspace_id = some h.workspace_id; hitl_retention = some h }))

module _ (a : Attempt) where
  open a use {producer_runs, resolved, raises}

  -- `_run_once`
  pub run_once : Resource → Running → Running
  unfolding flag set_flag add_error join_text resource_name
  run_once x (l, r) = if flag x l then (l, r) else elim (raises x) [
    | some name ↦ (l, add_error (join_text (resource_name x ∷ ":" ∷ name ∷ [])) r)
    | none ↦ (record (set_flag x l) { released = l.released ++ x ∷ [] }, r)
  ]

  pub take_discovery : Option String ⊎ String → Running → Running
  unfolding set_workspace add_error join_text
  take_discovery (inl found) (l, r) = (set_workspace found l, r)
  take_discovery (inr name) (l, r) =
      (l, add_error (join_text ("workspace_discovery:" ∷ name ∷ [])) r)

  -- The workspace is looked up, if it is not known.
  pub discover_workspace : Running → Running
  unfolding take_discovery
  discover_workspace (l, r) = elim l.workspace_id [
    | some id ↦ (l, r)
    | none ↦ take_discovery resolved (l, r)
  ]

  -- `_observe_producer`
  pub observe_producer : Running → Running
  observe_producer (l, r) = elim l.producer_error [
    | none ↦ (l, r)
    | some e ↦ (record l { producer_error = none }, record r { producer_error = some e })
  ]

  -- `valid_retention`
  pub keeps_workspace : Bool → RunLifecycle → Bool
  unfolding is_valid
  keeps_workspace retain l = elim l.hitl_retention [
    | none ↦ false
    | some h ↦ retain && is_valid h && holds l.workspace_id h.workspace_id
  ]

  pub revoke_credential : Running → Running
  unfolding run_once
  revoke_credential p =
      let (l, r) = run_once credential p in
      (l, record r { credential_revoked = l.credential_revoked })

  pub delete_checkpoint : Running → Running
  unfolding run_once
  delete_checkpoint p =
      let (l, r) = run_once checkpoint p in
      (l, record r { checkpoint_deleted = l.checkpoint_deleted })

  pub finish_lease : Running → Running
  unfolding run_once
  finish_lease p =
      let (l, r) = run_once lease p in (l, record r { lease_released = l.lease_released })

  pub clean_known : Running → Running
  unfolding run_once
  clean_known (l, r) =
      if is_set l.workspace_id
      then run_once workspace (l, r)
      else (record l { workspace_cleaned = true }, r)

  pub clean_workspace : Running → Running
  unfolding clean_known
  clean_workspace p =
      let (l, r) = clean_known p in (l, record r { workspace_cleaned = l.workspace_cleaned })

  unfoldable is_successful : RunTermination → Bool
  is_successful completed = true
  is_successful hitl_approved = true
  is_successful _ = false

  pub no_errors : List String → Bool
  no_errors [] = true
  no_errors (e ∷ es) = false

  -- The last `run_statuses.update`, of a clean-up that retains nothing.
  unfoldable final_update : CleanupReport → Change
  unfolding is_successful termination_value
  final_update r = record unchanged {
    lifecycle_status = some (if r.cleanup_complete then cleanup_completed else cleanup_failed);
    terminal_status =
        some
          (if is_successful r.reason && r.cleanup_complete then ended_completed else ended_failed);
    termination_reason = some (termination_value r.reason);
    workspace_retained = some false;
    cleanup_errors = some r.cleanup_errors;
  }

  -- `cleanup_complete`, `_unregister` and the update.
  pub close : Running → Running
  unfolding no_errors publish final_update
  close (l, r) =
      let r' = record r { cleanup_complete = no_errors r.cleanup_errors } in
      let l' = if r'.cleanup_complete then record l { registered = false } else l in
      (publish (final_update r') l', r')

  pub release_rest : Running → Running
  unfolding delete_checkpoint finish_lease clean_workspace close
  release_rest p = close (clean_workspace (finish_lease (delete_checkpoint p)))

  pub retain_workspace : Running → Running
  unfolding publish termination_value
  retain_workspace (l, r) = (
    publish
        (record unchanged {
          lifecycle_status = some waiting_for_hitl;
          termination_reason = some (termination_value r.reason);
          workspace_retained = some true;
          cleanup_errors = some r.cleanup_errors;
        })
        l,
    record r { workspace_retained = true; cleanup_complete = true },
  )

  pub note_retention : Bool → Running → Running
  unfolding add_error
  note_retention retain (l, r) = (l, if retain then add_error "invalid_hitl_retention" r else r)

  -- `_release_owned_resources`, behind the discovery; `valid_retention` is taken before the
  -- credential is revoked, which does not change it.
  unfoldable pub release_found : Bool → Running → Running
  unfolding revoke_credential keeps_workspace retain_workspace release_rest note_retention
  release_found retain p =
      if keeps_workspace retain p.0
      then retain_workspace (revoke_credential p)
      else release_rest (note_retention retain (revoke_credential p))

  pub release_owned_resources : Bool → Running → Running
  unfolding release_found discover_workspace
  release_owned_resources retain p = release_found retain (discover_workspace p)

  -- The first lines of `_cleanup_impl`.
  pub start_cleanup : RunTermination → RunLifecycle → Running
  unfolding publish new_report termination_value
  start_cleanup reason l = (
    record (publish
        (record unchanged {
          lifecycle_status = some cancelling;
          termination_reason = some (termination_value reason);
        })
        l) { stop_requested = true },
    new_report reason,
  )

  -- The producer runs on: the release is left to `_finish_after_producer`.
  pub defer_cleanup : Running → Running
  unfolding publish add_error termination_value
  defer_cleanup (l, r) =
      let r' = add_error "producer_timeout" (record r { producer_timed_out = true }) in
      (
        publish
            (record unchanged {
              lifecycle_status = some cleanup_pending;
              termination_reason = some (termination_value r.reason);
              cleanup_errors = some r'.cleanup_errors;
            })
            l,
        r',
      )

  pub cleanup_impl : RunTermination → Bool → RunLifecycle → Running
  unfolding start_cleanup defer_cleanup observe_producer release_owned_resources
  cleanup_impl reason retain l =
      let p = start_cleanup reason l in
      if l.has_producer && producer_runs
      then defer_cleanup p
      else release_owned_resources retain (observe_producer p)

  pub store_report : Running → RunLifecycle
  store_report (l, r) = record l { last_report = some r }

  -- Whether `cleanup` starts an attempt, when none is running.
  pub may_start : Bool → RunLifecycle → Bool
  may_start retain l = elim l.last_report [
    | none ↦ true
    | some r ↦
        r.workspace_retained && not retain || not r.cleanup_complete && not r.producer_timed_out
  ]

  unfoldable pub cleanup : RunTermination → Bool → RunLifecycle → RunLifecycle
  unfolding may_start cleanup_impl store_report
  cleanup reason retain l =
      if may_start retain l then store_report (cleanup_impl reason retain l) else l

  pub without_timeout : CleanupReport → CleanupReport
  without_timeout r = record r {
    cleanup_errors = select (λ e. not (e == "producer_timeout")) r.cleanup_errors;
  }

  -- `_finish_after_producer`: the producer of a deferred clean-up has ended.
  pub finish_after_producer : RunTermination → RunLifecycle → RunLifecycle
  unfolding without_timeout new_report observe_producer release_owned_resources store_report
  finish_after_producer reason l = elim l.last_report [
    | none ↦
        store_report (
          release_owned_resources false (observe_producer (l, without_timeout (new_report reason))))
    | some r ↦
        store_report (release_owned_resources false (observe_producer (l, without_timeout r)))
  ]
