-- ===== src/Paths/Boundary.antt =====
-- The boundary that backend/agent/path_policy.py draws.
use refactor_agent.Common.{
  Bool-cases, Option-cases, String, ◌≡◌, refl, sym, subst, ◌⊎◌, inl, inr, Bool, true, false, some,
  some-injective, List, [], ◌∷◌, ◌++◌, arith, ◌==◌, eq_iff, eq_refl,
}
use refactor_agent.Messages.{join_with}
use refactor_agent.Paths.{
  PathError, Checked, PathLibrary, relative_to, requested, is_blank, is_protected_path,
  unless_protected, within_root, canonical_refactor_path, accepted, refused,
}

pub relative_to-some :
    (root path : List String) {rest : List String}
    → relative_to root path ≡ some rest
    → path ≡ root ++ rest
unfolding relative_to
relative_to-some [] path {rest} e = some-injective path rest e
relative_to-some (r ∷ root) [] e = absurd (ground arith)
relative_to-some (r ∷ root) (p ∷ path) {rest} e = elim (Bool-cases (r == p)) [
  | inr n ↦ absurd (ground (arith, n))
  | inl t ↦ ground (arith, relative_to-some root path {rest = rest}, eq_iff r p, t)
]

pub relative_to-append : (root rest : List String) → relative_to root (root ++ rest) ≡ some rest
unfolding relative_to
relative_to-append [] rest = refl
relative_to-append (r ∷ root) rest = rw (eq_refl r) (relative_to-append root rest)

Checked-cases :
    (c : Checked Bool)
    → ((err : PathError) × (c ≡ refused err)) ⊎ (c ≡ accepted true) ⊎ (c ≡ accepted false)
Checked-cases (refused err) = inl (err, refl)
Checked-cases (accepted true) = inr (inl refl)
Checked-cases (accepted false) = inr (inr refl)

module _ (lib : PathLibrary) where
  open lib use {resolve, is_absolute, strip, casefold, project_root, refactor_root}

  unless_protected-accepted :
      (normalized path : String)
      → unless_protected lib normalized ≡ accepted path
      → (path ≡ normalized) × (is_protected_path lib path ≡ accepted false)
  unfolding unless_protected
  unless_protected-accepted normalized path h =
      elim (Checked-cases (is_protected_path lib normalized)) [
        | inl (err, e) ↦ absurd (ground (arith, e))
        | inr (inl e) ↦ absurd (ground (arith, e))
        | inr (inr e) ↦
            let same : normalized ≡ path = ground (arith, e, h) in
            (sym same, subst (λ x. is_protected_path lib x ≡ accepted false) same e)
      ]

  within_root-inside :
      (resolved : List String) (path : String)
      → within_root lib resolved ≡ accepted path
      → ((parts : List String) × (resolved ≡ project_root ++ parts) × (path ≡ join_with "/" parts))
        × (is_protected_path lib path ≡ accepted false)
  unfolding within_root
  within_root-inside resolved path h = elim (Option-cases (relative_to project_root resolved)) [
    | inl n ↦ absurd (ground (arith, n))
    | inr (parts, m) ↦
        let u : unless_protected lib (join_with "/" parts) ≡ accepted path = ground (arith, m) in
        let (same, clear) = unless_protected-accepted (join_with "/" parts) path u in
        ((parts, relative_to-some project_root resolved m, same), clear)
  ]

  -- A path that `canonical_refactor_path` accepts leads below the refactor root, is given back as the
  -- parts behind the project's root, and (as the policy resolves it again) is under no protected
  -- directory, nor is it one. Absolute and blank texts are never accepted.
  pub canonical_refactor_path-inside :
      (file_path path : String)
      → canonical_refactor_path lib file_path ≡ accepted path
      → ((below : List String) × (resolve (requested lib file_path) ≡ refactor_root ++ below))
        × ((parts : List String) × (resolve (requested lib file_path) ≡ project_root ++ parts)
            × (path ≡ join_with "/" parts))
        × (is_protected_path lib path ≡ accepted false)
        × (is_absolute (requested lib file_path) ≡ false)
        × (is_blank lib file_path ≡ false)
  unfolding canonical_refactor_path
  canonical_refactor_path-inside file_path path h =
      let rel = relative_to refactor_root (resolve (requested lib file_path)) in
      elim (Bool-cases (is_blank lib file_path)) [
        | inl b ↦ absurd (ground (arith, b))
        | inr b ↦ elim (Bool-cases (is_absolute (requested lib file_path))) [
          | inl a ↦ absurd (ground (arith, a, b))
          | inr a ↦ elim (Option-cases rel) [
            | inl n ↦ absurd (ground (arith, a, b, n))
            | inr (below, m) ↦
                let root = relative_to-some refactor_root (resolve (requested lib file_path)) m in
                let w : within_root lib (resolve (requested lib file_path)) ≡ accepted path =
                  ground (arith, a, b, m) in
                let (rest, p) = within_root-inside (resolve (requested lib file_path)) path w in
                ((below, root), rest, p, a, b)
          ]
        ]
      ]
