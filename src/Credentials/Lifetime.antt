-- ===== src/Credentials/Lifetime.antt =====
-- A key can be read from the moment it is stored until it expires or is revoked.
use refactor_agent.Common.{
  ltb, if◌then◌else◌, Bool-cases, ℕ, ◌+◌, ◌≤◌, String, ◌≡◌, refl, sym, ap, ◌∙◌, ◌≢◌, inl, inr,
  Option, none, some, arith, ◌==◌, eq_iff,
}
use refactor_agent.Dict
use refactor_agent.Dict.{Dict, keep_if}
use refactor_agent.Credentials.{
  CredentialEntry, Vault, is_live, purge_expired, store, secret_of, resolve, revoke,
}

-- What `resolve` reads, without the purge before it.
resolve-get :
    (now : ℕ) (j : String) (v : Vault)
    → Dict.IsUnique v
    → (resolve now j v).0 ≡ secret_of (keep_if (is_live now) (Dict.get j v))
unfolding resolve purge_expired
resolve-get now j v u = rw (Dict.get-keep (is_live now) j v u) refl

secret_of-keep_if :
    (now later : ℕ) (o : Option CredentialEntry)
    → now ≤ later
    → secret_of (keep_if (is_live later) (keep_if (is_live now) o))
      ≡ secret_of (keep_if (is_live later) o)
unfolding secret_of is_live
secret_of-keep_if now later none h = refl
secret_of-keep_if now later (some e) h = ground arith

purged-lem :
    (now : ℕ) (v : Vault) (j : String)
    → Dict.IsUnique v
    → Dict.get j (purge_expired now v) ≡ keep_if (is_live now) (Dict.get j v)
unfolding purge_expired
purged-lem now v j u = Dict.get-keep (is_live now) j v u

purged-IsUnique : (now : ℕ) (v : Vault) → Dict.IsUnique v → Dict.IsUnique (purge_expired now v)
unfolding purge_expired
purged-IsUnique now v u = Dict.keep-IsUnique (is_live now) v u

-- A vault with a new entry.
stored-resolve :
    (later : ℕ) (j reference : String) (e : CredentialEntry) (v : Vault)
    → Dict.IsUnique v
    → (resolve later j (Dict.put reference e v)).0 ≡ (
        if reference == j
        then (if ltb later e.expires_at then some e.secret else none)
        else (resolve later j v).0)
stored-resolve later j reference e v u =
    rw
      (
        resolve-get later j (Dict.put reference e v) (Dict.put-IsUnique reference e v u),
        resolve-get later j v u,
        Dict.get-put,
      )
      (unfold secret_of is_live in ground arith)

-- For a vault in which no reference stands twice, a key that is not empty, and a moment not before the purge:
-- `store` returns the reference; it resolves to the key until the time to live is over, from the
-- second reading of the clock on, and then
-- raises; every other reference resolves as it would have without the call.
pub store-resolve :
    (ttl_seconds now stamped later : ℕ) (reference key : String) (v : Vault)
    → Dict.IsUnique v
    → key ≢ ""
    → now ≤ later
    → ((store ttl_seconds now stamped reference key v).0 ≡ some reference)
      × ((j : String)
          → (resolve later j (store ttl_seconds now stamped reference key v).1).0 ≡ (
              if reference == j
              then (if ltb later (stamped + ttl_seconds) then some key else none)
              else (resolve later j v).0))
unfolding store
store-resolve ttl_seconds now stamped later reference key v u ne h = elim (Bool-cases (key == "")) [
  | inl e ↦ absurd (ne ((eq_iff key "").0 e))
  | inr e ↦ rw e (
    refl,
    λ j.
        stored-resolve later j reference
          (record { secret = key; expires_at = stamped + ttl_seconds }) (purge_expired now v)
          (purged-IsUnique now v u)
        ∙ ap
            (λ o.
              if reference == j
              then (if ltb later (stamped + ttl_seconds) then some key else none)
              else o)
            (resolve-get later j (purge_expired now v) (purged-IsUnique now v u)
              ∙ ap (λ o. secret_of (keep_if (is_live later) o)) (purged-lem now v j u)
              ∙ secret_of-keep_if now later (Dict.get j v) h
              ∙ sym (resolve-get later j v u)),
  )
]

-- After `revoke` of a reference that is not empty it raises, and every other reference resolves as
-- before, in a vault in which no reference stands twice.
pub revoke-resolve :
    (now : ℕ) (reference : String) (v : Vault)
    → Dict.IsUnique v
    → reference ≢ ""
    → (j : String)
    → (resolve now j (revoke (some reference) v)).0
      ≡ (if reference == j then none else (resolve now j v).0)
unfolding revoke
revoke-resolve now reference v u ne j = elim (Bool-cases (reference == "")) [
  | inl e ↦ absurd (ne ((eq_iff reference "").0 e))
  | inr e ↦
      rw
        (
          e,
          resolve-get now j (Dict.pop reference v) (Dict.pop-IsUnique reference v u),
          resolve-get now j v u,
          Dict.get-pop,
        )
        (unfold secret_of in ground arith)
]
