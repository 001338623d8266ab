-- ===== src/Credentials.antt =====
-- backend/agent/credentials.py: the vault of API keys. Time is a whole number of ticks, and the
-- clock's reading an argument, as is the random reference; the lock makes each method a step.
pub mod Lifetime
use refactor_agent.Common.{leb, if◌then◌else◌, ℕ, ◌+◌, String, Bool, not, Option, none, some, ◌==◌}
use refactor_agent.Dict
use refactor_agent.Dict.{Dict}

pub record CredentialEntry : Type 0 where
  pub secret : String
  pub expires_at : ℕ

abbrev pub Vault : Type 0
Vault = Dict CredentialEntry

-- `entry.expires_at > now`
pub is_live : ℕ → CredentialEntry → Bool
is_live now e = not (leb e.expires_at now)

pub purge_expired : ℕ → Vault → Vault
unfolding is_live
purge_expired now entries = Dict.keep (is_live now) entries

-- `store`: the reference, none for an empty key, and the vault. The clock is read twice, for the purge
-- and for the new entry.
pub store : ℕ → ℕ → ℕ → String → String → Vault → Option String × Vault
unfolding purge_expired
store ttl_seconds now stamped reference api_key entries =
    if api_key == "" then (none, entries) else (
      some reference,
      Dict.put reference (record { secret = api_key; expires_at = stamped + ttl_seconds })
          (purge_expired now entries),
    )

pub secret_of : Option CredentialEntry → Option String
secret_of none = none
secret_of (some e) = some e.secret

-- `resolve`: none where it raises CredentialReferenceError.
pub resolve : ℕ → String → Vault → Option String × Vault
unfolding purge_expired secret_of
resolve now reference entries =
    let live = purge_expired now entries in (secret_of (Dict.get reference live), live)

-- `revoke`, of a reference that may be missing or empty.
pub revoke : Option String → Vault → Vault
revoke none entries = entries
revoke (some reference) entries = if reference == "" then entries else Dict.pop reference entries
