-- ===== src/Lifecycles/Outcomes.antt =====
-- What a clean-up that reports success has released, and which attempts succeed.
use refactor_agent.Common.{
  Bool-cases, Option-cases, is_set, String, ◌≡◌, refl, ◌∙◌, ◌≢◌, inl, inr, Bool, true, false, List,
  [], ◌∷◌, ◌++◌, arith,
}
use refactor_agent.Lifecycles.{
  Resource, RunLifecycle, Attempt, flag, set_flag, Running, publish, add_error, run_once,
  keeps_workspace, revoke_credential, delete_checkpoint, finish_lease, clean_known, clean_workspace,
  no_errors, close, release_rest, retain_workspace, note_retention, release_found, credential,
  checkpoint, lease, workspace,
}

abbrev Clean : Running → Type 0
Clean p = p.1.cleanup_errors ≡ []

snoc-ne-nil : (xs : List String) (e : String) → xs ++ e ∷ [] ≢ []
snoc-ne-nil [] e h = absurd (ground arith)
snoc-ne-nil (x ∷ xs) e h = absurd (ground arith)

flag-set_flag : (x : Resource) (l : RunLifecycle) → flag x (set_flag x l) ≡ true
unfolding flag set_flag
flag-set_flag credential l = refl
flag-set_flag checkpoint l = refl
flag-set_flag lease l = refl
flag-set_flag workspace l = refl

flag-released :
    (x : Resource) (l : RunLifecycle) (xs : List Resource)
    → flag x (record l { released = xs }) ≡ flag x l
unfolding flag
flag-released credential l xs = refl
flag-released checkpoint l xs = refl
flag-released lease l xs = refl
flag-released workspace l xs = refl

-- A flag that is up stays up.
flag-stays : (x y : Resource) (l : RunLifecycle) → flag y l ≡ true → flag y (set_flag x l) ≡ true
unfolding flag set_flag
flag-stays credential credential l h = refl
flag-stays checkpoint checkpoint l h = refl
flag-stays lease lease l h = refl
flag-stays workspace workspace l h = refl
flag-stays credential checkpoint l h = h
flag-stays credential lease l h = h
flag-stays credential workspace l h = h
flag-stays checkpoint credential l h = h
flag-stays checkpoint lease l h = h
flag-stays checkpoint workspace l h = h
flag-stays lease credential l h = h
flag-stays lease checkpoint l h = h
flag-stays lease workspace l h = h
flag-stays workspace credential l h = h
flag-stays workspace checkpoint l h = h
flag-stays workspace lease l h = h

module _ (a : Attempt) where
  -- A release that leaves no error has raised the flag, and there was no error before.
  run_once-lem :
      (x : Resource) (p : Running)
      → Clean (run_once a x p)
      → Clean p × (flag x (run_once a x p).0 ≡ true)
  unfolding run_once add_error
  run_once-lem x (l, r) h = elim (Bool-cases (flag x l)) [
    | inl e ↦ rw (run_once, e) (rw (run_once, e) at h, e)
    | inr e ↦ elim (Option-cases (a.raises x)) [
      | inr (name, f) ↦ absurd (snoc-ne-nil r.cleanup_errors _ (rw (run_once, e, f) at h))
      | inl f ↦
          rw (run_once, e, f)
            (rw (run_once, e, f) at h, flag-released x (set_flag x l) _ ∙ flag-set_flag x l)
    ]
  ]

  run_once-stays :
      (x y : Resource) (p : Running) → flag y p.0 ≡ true → flag y (run_once a x p).0 ≡ true
  unfolding run_once
  run_once-stays x y (l, r) h = elim (Bool-cases (flag x l)) [
    | inl e ↦ rw (run_once, e) h
    | inr e ↦ elim (Option-cases (a.raises x)) [
      | inr (name, f) ↦ rw (run_once, e, f) h
      | inl f ↦ rw (run_once, e, f) (flag-released y (set_flag x l) _ ∙ flag-stays x y l h)
    ]
  ]

  -- Everything is released, and the run is no longer registered.
  pub record IsReleased (p : Running) : Type 0 where
    pub no_error : p.1.cleanup_errors ≡ []
    pub credential_revoked : p.0.credential_revoked ≡ true
    pub checkpoint_deleted : p.0.checkpoint_deleted ≡ true
    pub lease_released : p.0.lease_released ≡ true
    pub workspace_cleaned : p.0.workspace_cleaned ≡ true
    pub unregistered : p.0.registered ≡ false

  clean_known-lem :
      (p : Running)
      → Clean (clean_known a p)
      → Clean p × (flag workspace (clean_known a p).0 ≡ true)
  unfolding clean_known
  clean_known-lem (l, r) h = elim (Bool-cases (is_set l.workspace_id)) [
    | inl e ↦ rw (clean_known, e) (run_once-lem workspace (l, r) (rw (clean_known, e) at h))
    | inr e ↦ rw (clean_known, e) (rw (clean_known, e) at h, unfold flag in refl)
  ]

  clean_known-stays :
      (y : Resource) (p : Running) → flag y p.0 ≡ true → flag y (clean_known a p).0 ≡ true
  unfolding clean_known
  clean_known-stays y (l, r) h = elim (Bool-cases (is_set l.workspace_id)) [
    | inl e ↦ rw (clean_known, e) (run_once-stays workspace y (l, r) h)
    | inr e ↦ rw (clean_known, e) (unfold set_flag in flag-stays workspace y l h)
  ]

  -- Everything but the registration.
  abbrev AllFlags : RunLifecycle → Type 0
  AllFlags l =
      (l.credential_revoked ≡ true)
      × (l.checkpoint_deleted ≡ true)
      × (l.lease_released ≡ true)
      × (l.workspace_cleaned ≡ true)

  rest_flags :
      (p : Running)
      → (Clean p → flag credential p.0 ≡ true)
      → Clean (clean_workspace a (finish_lease a (delete_checkpoint a p)))
      → Clean p × AllFlags (clean_workspace a (finish_lease a (delete_checkpoint a p))).0
  unfolding clean_workspace finish_lease delete_checkpoint flag
  rest_flags p c h =
      let deleted = delete_checkpoint a p in
      let finished = finish_lease a deleted in
      let (clean_f, up_w) = clean_known-lem finished h in
      let (clean_d, up_l) = run_once-lem lease deleted clean_f in
      let (clean_p, up_c) = run_once-lem checkpoint p clean_d in
      (
        clean_p,
        (
          clean_known-stays credential finished (
              run_once-stays lease credential deleted
                (run_once-stays checkpoint credential p (c clean_p))),
          clean_known-stays checkpoint finished (run_once-stays lease checkpoint deleted up_c),
          clean_known-stays lease finished up_l,
          up_w,
        ),
      )

  no_errors-nil : (es : List String) → no_errors a es ≡ true → es ≡ []
  unfolding no_errors
  no_errors-nil [] h = refl
  no_errors-nil (e ∷ es) h = cc

  close-IsReleased :
      (p : Running) → AllFlags p.0 → (close a p).1.cleanup_complete ≡ true → IsReleased (close a p)
  unfolding close publish
  close-IsReleased (l, r) (c, k, f, w) h = elim (Bool-cases (no_errors a r.cleanup_errors)) [
    | inr e ↦ absurd (ground arith)
    | inl e ↦
        rw (close, e)
          record {
            no_error = no_errors-nil r.cleanup_errors e;
            credential_revoked = c;
            checkpoint_deleted = k;
            lease_released = f;
            workspace_cleaned = w;
            unregistered = refl;
          }
  ]

  close-Clean : (p : Running) → (close a p).1.cleanup_complete ≡ true → Clean p
  unfolding close
  close-Clean (l, r) h = no_errors-nil r.cleanup_errors h

  release_rest-IsReleased :
      (p : Running)
      → (Clean p → flag credential p.0 ≡ true)
      → (release_rest a p).1.cleanup_complete ≡ true
      → IsReleased (release_rest a p)
  unfolding release_rest
  release_rest-IsReleased p c h =
      let w = clean_workspace a (finish_lease a (delete_checkpoint a p)) in
      let (_, up) = rest_flags p c (close-Clean w h) in close-IsReleased w up h

  revoked-flag :
      (retain : Bool) (p : Running)
      → Clean (note_retention a retain (revoke_credential a p))
      → flag credential (note_retention a retain (revoke_credential a p)).0 ≡ true
  unfolding note_retention revoke_credential add_error
  revoked-flag false p h = let (_, up) = run_once-lem credential p h in up
  revoked-flag true p h = absurd (snoc-ne-nil _ _ h)

  -- The checkpoint, the lease and the workspace are as they were, and the run stays registered.
  abbrev pub SameHeld : RunLifecycle → RunLifecycle → Type 0
  SameHeld l l' =
      (l'.checkpoint_deleted ≡ l.checkpoint_deleted)
      × (l'.lease_released ≡ l.lease_released)
      × (l'.workspace_cleaned ≡ l.workspace_cleaned)
      × (l'.registered ≡ l.registered)

  revoke-SameHeld : (p : Running) → SameHeld p.0 (revoke_credential a p).0
  unfolding revoke_credential run_once set_flag
  revoke-SameHeld (l, r) = elim (Bool-cases (flag credential l)) [
    | inl e ↦ rw (run_once, e) (refl, refl, refl, refl)
    | inr e ↦ elim (Option-cases (a.raises credential)) [
      | inr (name, f) ↦ rw (run_once, e, f) (refl, refl, refl, refl)
      | inl f ↦ rw (run_once, e, f) (refl, refl, refl, refl)
    ]
  ]

  -- A release that says that it is complete has kept everything for the user's answer, or has
  -- released everything.
  pub data CompleteAs (retain : Bool) (p q : Running) : Type 0 where
    kept_for_hitl :
        retain ≡ true → q.1.workspace_retained ≡ true → SameHeld p.0 q.0 → CompleteAs retain p q
    all_released : IsReleased q → CompleteAs retain p q

  keeps_workspace-retain :
      (retain : Bool) (l : RunLifecycle) → keeps_workspace a retain l ≡ true → retain ≡ true
  unfolding keeps_workspace
  keeps_workspace-retain retain l h = elim (Option-cases l.hitl_retention) [
    | inl e ↦ absurd (ground arith)
    | inr (x, e) ↦ ground arith
  ]

  -- Once the workspace has been looked up: where the release says that it is complete, either it
  -- was asked to retain, and the checkpoint, the lease, the workspace and the registration are as
  -- they were; or there is no error, all four resources are marked released, and the run is no
  -- longer registered.
  pub release_found-CompleteAs :
      (retain : Bool) (p : Running)
      → (release_found a retain p).1.cleanup_complete ≡ true
      → CompleteAs retain p (release_found a retain p)
  unfolding release_found
  release_found-CompleteAs retain p = elim (Bool-cases (keeps_workspace a retain p.0)) [
    | inl e ↦
        rw (release_found, e)
          λ h.
            kept_for_hitl (keeps_workspace-retain retain p.0 e) (unfold retain_workspace in refl)
              (unfold retain_workspace publish in revoke-SameHeld p)
    | inr e ↦
        rw (release_found, e)
          λ h. all_released (
            release_rest-IsReleased (note_retention a retain (revoke_credential a p))
              (revoked-flag retain p) h)
  ]
