-- ===== src/Lifecycles/Once.antt =====
-- No resource is released twice, whatever the attempts meet.
use refactor_agent.Common.{
  if◌then◌else◌, Bool-cases, Option-cases, is_set, ℕ, suc, ◌≤◌, String, ◌≡◌, refl, ◌⊎◌, inl, inr,
  Bool, true, false, ◌&&◌, Option, none, some, List, [], ◌∷◌, ◌++◌, arith, ◌==◌,
}
use refactor_agent.Lifecycles.{
  RunTermination, HitlRetention, is_valid, Resource, CleanupReport, RunLifecycle, Attempt, flag,
  set_flag, new_report, Running, publish, set_workspace, retain_for_hitl, run_once, take_discovery,
  discover_workspace, observe_producer, keeps_workspace, revoke_credential, delete_checkpoint,
  finish_lease, clean_known, clean_workspace, no_errors, close, release_rest, retain_workspace,
  note_retention, release_found, release_owned_resources, start_cleanup, defer_cleanup,
  cleanup_impl, store_report, may_start, cleanup, without_timeout, finish_after_producer,
  credential, checkpoint, lease, workspace,
}

abbrev same_resource : Resource → Resource → Bool
same_resource credential credential = true
same_resource checkpoint checkpoint = true
same_resource lease lease = true
same_resource workspace workspace = true
same_resource _ _ = false

-- How often a resource was released.
unfoldable pub times : Resource → List Resource → ℕ
times x [] = 0
times x (y ∷ ys) = let rest = times x ys in if same_resource x y then suc rest else rest

times-snoc :
    (x y : Resource) (xs : List Resource)
    → times x (xs ++ y ∷ []) ≡ (if same_resource x y then suc (times x xs) else times x xs)
unfolding times
times-snoc x y [] = refl
times-snoc x y (z ∷ zs) = ground (arith, times-snoc x y zs)

-- Released at most once, and not at all while the flag is down.
abbrev pub OnceFor : Bool → ℕ → Type 0
OnceFor b n = (n ≤ 1) × (b ≡ false → n ≡ 0)

abbrev pub IsOnce : RunLifecycle → Type 0
IsOnce l =
    OnceFor l.credential_revoked (times credential l.released)
    × OnceFor l.checkpoint_deleted (times checkpoint l.released)
    × OnceFor l.lease_released (times lease l.released)
    × OnceFor l.workspace_cleaned (times workspace l.released)

-- The call of one operation that returned.
returned-IsOnce :
    (x : Resource) (l : RunLifecycle)
    → flag x l ≡ false
    → IsOnce l
    → IsOnce (record (set_flag x l) { released = l.released ++ x ∷ [] })
unfolding flag set_flag
returned-IsOnce credential l e h = (
  ground (arith, times-snoc credential credential l.released, h.0),
  ground (arith, times-snoc checkpoint credential l.released, h.1),
  ground (arith, times-snoc lease credential l.released, h.2),
  ground (arith, times-snoc workspace credential l.released, h.3),
)
returned-IsOnce checkpoint l e h = (
  ground (arith, times-snoc credential checkpoint l.released, h.0),
  ground (arith, times-snoc checkpoint checkpoint l.released, h.1),
  ground (arith, times-snoc lease checkpoint l.released, h.2),
  ground (arith, times-snoc workspace checkpoint l.released, h.3),
)
returned-IsOnce lease l e h = (
  ground (arith, times-snoc credential lease l.released, h.0),
  ground (arith, times-snoc checkpoint lease l.released, h.1),
  ground (arith, times-snoc lease lease l.released, h.2),
  ground (arith, times-snoc workspace lease l.released, h.3),
)
returned-IsOnce workspace l e h = (
  ground (arith, times-snoc credential workspace l.released, h.0),
  ground (arith, times-snoc checkpoint workspace l.released, h.1),
  ground (arith, times-snoc lease workspace l.released, h.2),
  ground (arith, times-snoc workspace workspace l.released, h.3),
)

set_workspace-IsOnce :
    (o : Option String) (l : RunLifecycle) → IsOnce l → IsOnce (set_workspace o l)
unfolding set_workspace
set_workspace-IsOnce none l h = h
set_workspace-IsOnce (some id) l h = elim (Bool-cases (id == "")) [
  | inl e ↦ rw (set_workspace, e) h
  | inr e ↦ rw (set_workspace, e) h
]

module _ (a : Attempt) where
  run_once-IsOnce : (x : Resource) (p : Running) → IsOnce p.0 → IsOnce (run_once a x p).0
  unfolding run_once
  run_once-IsOnce x (l, r) h = elim (Bool-cases (flag x l)) [
    | inl e ↦ rw (run_once, e) h
    | inr e ↦ elim (Option-cases (a.raises x)) [
      | inr (name, f) ↦ rw (run_once, e, f) h
      | inl f ↦ rw (run_once, e, f) (returned-IsOnce x l e h)
    ]
  ]

  revoke-IsOnce : (p : Running) → IsOnce p.0 → IsOnce (revoke_credential a p).0
  unfolding revoke_credential
  revoke-IsOnce p h = run_once-IsOnce credential p h

  clean_known-IsOnce : (p : Running) → IsOnce p.0 → IsOnce (clean_known a p).0
  unfolding clean_known
  clean_known-IsOnce (l, r) h = elim (Bool-cases (is_set l.workspace_id)) [
    | inl e ↦ rw (clean_known, e) (run_once-IsOnce workspace (l, r) h)
    | inr e ↦ rw (clean_known, e) (h.0, h.1, h.2, (h.3.0, λ x. absurd (ground arith)))
  ]

  close-IsOnce : (p : Running) → IsOnce p.0 → IsOnce (close a p).0
  unfolding close publish
  close-IsOnce (l, r) h = elim (Bool-cases (no_errors a r.cleanup_errors)) [
    | inl e ↦ rw (close, e) h
    | inr e ↦ rw (close, e) h
  ]

  checkpoint-IsOnce : (p : Running) → IsOnce p.0 → IsOnce (delete_checkpoint a p).0
  unfolding delete_checkpoint
  checkpoint-IsOnce p h = run_once-IsOnce checkpoint p h

  lease-IsOnce : (p : Running) → IsOnce p.0 → IsOnce (finish_lease a p).0
  unfolding finish_lease
  lease-IsOnce p h = run_once-IsOnce lease p h

  workspace-IsOnce : (p : Running) → IsOnce p.0 → IsOnce (clean_workspace a p).0
  unfolding clean_workspace
  workspace-IsOnce p h = clean_known-IsOnce p h

  release_rest-IsOnce : (p : Running) → IsOnce p.0 → IsOnce (release_rest a p).0
  unfolding release_rest
  release_rest-IsOnce p h =
      let deleted = delete_checkpoint a p in
      let finished = finish_lease a deleted in
      close-IsOnce (clean_workspace a finished)
        (workspace-IsOnce finished (lease-IsOnce deleted (checkpoint-IsOnce p h)))

  discovered-IsOnce :
      (o : Option String ⊎ String) (l : RunLifecycle) (r : CleanupReport)
      → IsOnce l
      → IsOnce (take_discovery a o (l, r)).0
  unfolding take_discovery
  discovered-IsOnce (inl found) l r h = set_workspace-IsOnce found l h
  discovered-IsOnce (inr name) l r h = h

  discover-IsOnce : (p : Running) → IsOnce p.0 → IsOnce (discover_workspace a p).0
  unfolding discover_workspace
  discover-IsOnce (l, r) h = elim (Option-cases l.workspace_id) [
    | inl e ↦ rw (discover_workspace, e) (discovered-IsOnce a.resolved l r h)
    | inr (id, e) ↦ rw (discover_workspace, e) h
  ]

  observe-IsOnce : (p : Running) → IsOnce p.0 → IsOnce (observe_producer a p).0
  unfolding observe_producer
  observe-IsOnce (l, r) h = elim (Option-cases l.producer_error) [
    | inl e ↦ rw (observe_producer, e) h
    | inr (x, e) ↦ rw (observe_producer, e) h
  ]

  release_found-IsOnce :
      (retain : Bool) (p : Running) → IsOnce p.0 → IsOnce (release_found a retain p).0
  unfolding release_found
  release_found-IsOnce retain p h =
      let revoked = revoke_credential a p in
      let h2 : IsOnce revoked.0 = revoke-IsOnce p h in
      elim (Bool-cases (keeps_workspace a retain p.0)) [
        | inl e ↦ rw (release_found, e) (unfold retain_workspace publish in h2)
        | inr e ↦
            rw (release_found, e)
              (release_rest-IsOnce (note_retention a retain revoked) (unfold note_retention in h2))
      ]

  release_owned-IsOnce :
      (retain : Bool) (p : Running) → IsOnce p.0 → IsOnce (release_owned_resources a retain p).0
  unfolding release_owned_resources
  release_owned-IsOnce retain p h =
      release_found-IsOnce retain (discover_workspace a p) (discover-IsOnce p h)

  cleanup_impl-IsOnce :
      (reason : RunTermination) (retain : Bool) (l : RunLifecycle)
      → IsOnce l
      → IsOnce (cleanup_impl a reason retain l).0
  unfolding cleanup_impl
  cleanup_impl-IsOnce reason retain l h =
      let p = start_cleanup a reason l in
      let h2 : IsOnce p.0 = unfold start_cleanup publish in h in
      elim (Bool-cases (l.has_producer && a.producer_runs)) [
        | inl e ↦ rw (cleanup_impl, e) (unfold defer_cleanup publish in h2)
        | inr e ↦
            rw (cleanup_impl, e)
              (release_owned-IsOnce retain (observe_producer a p) (observe-IsOnce p h2))
      ]

  cleanup-IsOnce :
      (reason : RunTermination) (retain : Bool) (l : RunLifecycle)
      → IsOnce l
      → IsOnce (cleanup a reason retain l)
  unfolding cleanup
  cleanup-IsOnce reason retain l h = elim (Bool-cases (may_start a retain l)) [
    | inl e ↦ rw (cleanup, e) (unfold store_report in cleanup_impl-IsOnce reason retain l h)
    | inr e ↦ rw (cleanup, e) h
  ]

  finish-IsOnce :
      (reason : RunTermination) (l : RunLifecycle)
      → IsOnce l
      → IsOnce (finish_after_producer a reason l)
  unfolding finish_after_producer
  finish-IsOnce reason l h = elim (Option-cases l.last_report) [
    | inl e ↦
        let p : Running = (l, without_timeout a (new_report reason)) in
        rw (finish_after_producer, e)
          (unfold store_report in
            release_owned-IsOnce false (observe_producer a p) (observe-IsOnce p h))
    | inr (r, e) ↦
        let p : Running = (l, without_timeout a r) in
        rw (finish_after_producer, e)
          (unfold store_report in
            release_owned-IsOnce false (observe_producer a p) (observe-IsOnce p h))
  ]

-- What happens to a lifecycle: a clean-up is asked for, the producer of a deferred one ends, a pause
-- is announced, or the workspace becomes known.
pub data Event : Type 0 where
  cleans : Attempt → RunTermination → Bool → Event
  producer_ends : Attempt → RunTermination → Event
  retains : HitlRetention → Event
  finds_workspace : Option String → Event

unfoldable after_retention : Option RunLifecycle → RunLifecycle → RunLifecycle
after_retention none l = l
after_retention (some kept) l = kept

unfoldable pub happen : Event → RunLifecycle → RunLifecycle
unfolding after_retention
happen (cleans a reason retain) l = cleanup a reason retain l
happen (producer_ends a reason) l = finish_after_producer a reason l
happen (retains h) l = after_retention (retain_for_hitl h l) l
happen (finds_workspace o) l = set_workspace o l

unfoldable pub happen_all : List Event → RunLifecycle → RunLifecycle
happen_all [] l = l
happen_all (e ∷ es) l = happen_all es (happen e l)

retains-IsOnce :
    (h : HitlRetention) (l : RunLifecycle)
    → IsOnce l
    → IsOnce (after_retention (retain_for_hitl h l) l)
unfolding after_retention retain_for_hitl publish
retains-IsOnce h l o = elim (Bool-cases (is_valid h)) [
  | inl e ↦ rw (retain_for_hitl, e) o
  | inr e ↦ rw (retain_for_hitl, e) o
]

happen-IsOnce : (e : Event) (l : RunLifecycle) → IsOnce l → IsOnce (happen e l)
unfolding happen
happen-IsOnce (cleans a reason retain) l h = cleanup-IsOnce a reason retain l h
happen-IsOnce (producer_ends a reason) l h = finish-IsOnce a reason l h
happen-IsOnce (retains x) l h = retains-IsOnce x l h
happen-IsOnce (finds_workspace o) l h = set_workspace-IsOnce o l h

-- Whatever happens to a lifecycle that starts without released resources, attempts that fail,
-- time out, retry or end late included, each of its resources is released at most once.
pub happen_all-IsOnce : (es : List Event) (l : RunLifecycle) → IsOnce l → IsOnce (happen_all es l)
unfolding happen_all
happen_all-IsOnce [] l h = h
happen_all-IsOnce (e ∷ es) l h = happen_all-IsOnce es (happen e l) (happen-IsOnce e l h)
