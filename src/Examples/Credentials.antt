-- ===== src/Examples/Credentials.antt =====
-- A key that is stored, read and revoked (backend/agent/credentials.py).
use refactor_agent.Common.{
  ltb, if◌then◌else◌, String, ◌≡◌, refl, none, some, [], ◌∷◌, arith, ◌==◌, eq_iff,
}
use refactor_agent.Dict
use refactor_agent.Credentials.{Vault, store, resolve, revoke}
use refactor_agent.Credentials.Lifetime.{store-resolve, revoke-resolve}

store-resolve_example :
    ((store 10 0 1 "ref" "key" []).0 ≡ some "ref")
    × ((j : String)
        → (resolve 5 j (store 10 0 1 "ref" "key" []).1).0
          ≡ (if "ref" == j then (if ltb 5 11 then some "key" else none) else (resolve 5 j []).0))
store-resolve_example =
    store-resolve 10 0 1 5 "ref" "key" [] tt (λ e. ground (arith, (eq_iff "key" "").1 e))
      (omega arith)

abbrev vault : Vault
vault = ("ref", record { secret = "key"; expires_at = 10 }) ∷ []

revoke-resolve_example :
    (resolve 5 "ref" (revoke (some "ref") vault)).0
    ≡ (if "ref" == "ref" then none else (resolve 5 "ref" vault).0)
unfolding Dict.get
revoke-resolve_example =
    revoke-resolve 5 "ref" vault (refl, tt) (λ e. ground (arith, (eq_iff "ref" "").1 e)) "ref"
