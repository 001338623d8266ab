-- ===== src/Sessions/Methods.antt =====
-- What an authorised method does to the registry: the two critical sections of session_registry.py
-- taken together. The later modules read the methods through these lemmas.
use refactor_agent.Common.{
  leb, Option-cases, ℕ, ◌+◌, ◌<◌, String, ◌≡◌, sym, ap, subst, ◌∙◌, ◌↔◌, inl, inr, not, some, arith,
  eq_iff, eq_refl,
}
use refactor_agent.Dict
use refactor_agent.Dict.{Dict, get-put, get-keep, put-IsUnique, keep-IsUnique}
use refactor_agent.Sessions.{
  SessionRecord, Registry, Outcome, Action, and_then, ◌>>◌, prune_expired, with_record, require, ok,
  on_found, authorise,
}

module _ (digest : String → String) (ttl_seconds : ℕ) where
  -- The session is there, has not expired, and the token is its own.
  pub record IsAuthorised (now : ℕ) (thread_id session_token : String) (rs : Registry)
      (r : SessionRecord) : Type 0 where
    pub found : Dict.get thread_id rs ≡ some r
    pub live : now < r.expires_at
    pub own : r.token_digest ≡ digest session_token

  abbrev pub renew : ℕ → SessionRecord → SessionRecord
  renew now r = record r { expires_at = now + ttl_seconds }

  abbrev pub method :
      {A : Type 0} → ℕ → String → String → (SessionRecord → Outcome A × SessionRecord) → Action A
  method now thread_id session_token body =
      require digest ttl_seconds now thread_id session_token >> with_record thread_id body

  pub prune-get :
      (now : ℕ) (j : String) (rs : Registry)
      → Dict.IsUnique rs
      → Dict.get j (prune_expired now rs)
        ≡ Dict.keep_if (λ r. not (leb r.expires_at now)) (Dict.get j rs)
  unfolding prune_expired
  prune-get now j rs u = get-keep _ j rs u

  pub require-IsAuthorised :
      (now : ℕ) (t s : String) (rs : Registry) {r : SessionRecord}
      → Dict.IsUnique rs
      → IsAuthorised now t s rs r
      → require digest ttl_seconds now t s rs
        ≡ (ok tt, Dict.put t (renew now r) (prune_expired now rs))
  unfolding require
  require-IsAuthorised now t s rs {r} u h =
      let e : Dict.get t (prune_expired now rs) ≡ some r =
        prune-get now t rs u ∙ rw h.found (ground (arith, h.live)) in
      rw (e, authorise) (rw ((eq_iff _ _).1 h.own))

  -- In a registry where no key stands twice, the token opens the session exactly when the session
  -- is there, lives and owns the token.
  pub require-ok_iff :
      (now : ℕ) (t s : String) (rs : Registry)
      → Dict.IsUnique rs
      → ((require digest ttl_seconds now t s rs).0 ≡ ok tt)
        ↔ ((r : SessionRecord) × IsAuthorised now t s rs r)
  unfolding require
  require-ok_iff now t s rs u =
      (there, λ (r, h). ap (λ p. p.0) (require-IsAuthorised now t s rs u h))
    where
      there :
          (require digest ttl_seconds now t s rs).0 ≡ ok tt
          → (r : SessionRecord) × IsAuthorised now t s rs r
      there h = elim (Option-cases (Dict.get t rs)) [
        | inl e ↦ absurd (ground (arith, prune-get now t rs u))
        | inr (r, e) ↦ (
          r,
          record {
            found = e;
            live = ground (arith, prune-get now t rs u);
            own = ground (arith, prune-get now t rs u, eq_iff r.token_digest (digest s));
          },
        )
      ]

  method_lem :
      {A : Type 0} (now : ℕ) (t s : String) (body : SessionRecord → Outcome A × SessionRecord)
      (rs : Registry) {r : SessionRecord}
      → Dict.IsUnique rs
      → IsAuthorised now t s rs r
      → method now t s body rs ≡ (
        (body (renew now r)).0,
        Dict.put t (body (renew now r)).1 (Dict.put t (renew now r) (prune_expired now rs)),
      )
  unfolding with_record
  method_lem now t s body rs {r} u h =
      ap (λ p. and_then p (with_record t body)) (require-IsAuthorised now t s rs u h)
      ∙ (let e : Dict.get t (Dict.put t (renew now r) (prune_expired now rs)) ≡ some (renew now r) =
            get-put t t (renew now r) (prune_expired now rs) ∙ rw (eq_refl t) in
          rw (e, on_found))

  -- What an authorised method returns, and what it leaves of its own session.
  pub method-result :
      {A : Type 0} (now : ℕ) (t s : String) (body : SessionRecord → Outcome A × SessionRecord)
      (rs : Registry) {r : SessionRecord}
      → Dict.IsUnique rs
      → IsAuthorised now t s rs r
      → (method now t s body rs).0 ≡ (body (renew now r)).0
  method-result now t s body rs u h = ap (λ p. p.0) (method_lem now t s body rs u h)

  pub method-get :
      {A : Type 0} (now : ℕ) (t s : String) (body : SessionRecord → Outcome A × SessionRecord)
      (rs : Registry) {r : SessionRecord}
      → Dict.IsUnique rs
      → IsAuthorised now t s rs r
      → Dict.get t (method now t s body rs).1 ≡ some (body (renew now r)).1
  method-get now t s body rs {r} u h =
      ap (λ p. Dict.get t p.1) (method_lem now t s body rs u h)
      ∙ get-put t t (body (renew now r)).1 _
      ∙ rw (eq_refl t)

  pub method-IsUnique :
      {A : Type 0} (now : ℕ) (t s : String) (body : SessionRecord → Outcome A × SessionRecord)
      (rs : Registry) {r : SessionRecord}
      → Dict.IsUnique rs
      → IsAuthorised now t s rs r
      → Dict.IsUnique (method now t s body rs).1
  unfolding prune_expired
  method-IsUnique now t s body rs u h =
      subst (λ p. Dict.IsUnique p.1) (sym (method_lem now t s body rs u h))
        (put-IsUnique t _ _ (put-IsUnique t _ _ (keep-IsUnique _ rs u)))

  -- The next authorised call on the same session, before it expires.
  pub method-IsAuthorised :
      {A : Type 0} (now later : ℕ) (t s : String) (body : SessionRecord → Outcome A × SessionRecord)
      (rs : Registry) {r : SessionRecord}
      → Dict.IsUnique rs
      → IsAuthorised now t s rs r
      → later < (body (renew now r)).1.expires_at
      → (body (renew now r)).1.token_digest ≡ r.token_digest
      → IsAuthorised later t s (method now t s body rs).1 (body (renew now r)).1
  method-IsAuthorised now later t s body rs u h lives same = record {
    found = method-get now t s body rs u h;
    live = lives;
    own = same ∙ h.own;
  }

  -- A block that leaves the session's token and expiry alone.
  abbrev pub IsSteady : {A : Type 0} → (SessionRecord → Outcome A × SessionRecord) → Type 0
  IsSteady body =
      (r : SessionRecord)
      → ((body r).1.expires_at ≡ r.expires_at) × ((body r).1.token_digest ≡ r.token_digest)

  module _ (now later : ℕ) (t s : String) (rs : Registry) {r : SessionRecord} (u : Dict.IsUnique rs)
      (h : IsAuthorised now t s rs r) (soon : later < now + ttl_seconds) where
    steady-IsAuthorised :
        {A : Type 0} (body : SessionRecord → Outcome A × SessionRecord)
        → IsSteady body
        → IsAuthorised later t s (method now t s body rs).1 (body (renew now r)).1
    steady-IsAuthorised body steady =
        method-IsAuthorised now later t s body rs u h (rw ((steady (renew now r)).0) soon)
          ((steady (renew now r)).1)

    -- Two authorised methods in a row: the second sees the record that the first left.
    pub method-method-result :
        {A B : Type 0} (first : SessionRecord → Outcome A × SessionRecord)
        (second : SessionRecord → Outcome B × SessionRecord)
        → IsSteady first
        → (method later t s second (method now t s first rs).1).0
          ≡ (second (renew later (first (renew now r)).1)).0
    method-method-result first second steady =
        method-result later t s second _ (method-IsUnique now t s first rs u h)
          (steady-IsAuthorised first steady)

    pub method-method-get :
        {A B : Type 0} (first : SessionRecord → Outcome A × SessionRecord)
        (second : SessionRecord → Outcome B × SessionRecord)
        → IsSteady first
        → Dict.get t (method later t s second (method now t s first rs).1).1
          ≡ some (second (renew later (first (renew now r)).1)).1
    method-method-get first second steady =
        method-get later t s second _ (method-IsUnique now t s first rs u h)
          (steady-IsAuthorised first steady)
