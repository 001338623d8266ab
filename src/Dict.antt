-- ===== src/Dict.antt =====
-- A dictionary with text keys, in insertion order: Python's `dict`.
use refactor_agent.Common.{
  if◌then◌else◌, Bool-cases, ℕ, suc, String, ◌≡◌, refl, subst, inl, inr, Bool, Option, none, some,
  List, [], ◌∷◌, arith, ◌==◌, eq_iff,
}

abbrev pub Dict {ℓ} : Type ℓ → Type ℓ
Dict V = List (String × V)

-- `value if test else None`, for an optional value
abbrev pub keep_if {ℓ} : {V : Type ℓ} → (V → Bool) → Option V → Option V
keep_if p none = none
keep_if p (some v) = if p v then some v else none

module _ {ℓ} {V : Type ℓ} where
  -- `d.get(k)`
  unfoldable pub get : String → Dict V → Option V
  get k [] = none
  get k ((j, v) ∷ d) = if j == k then some v else get k d

  -- `d[k] = v`: a new key goes to the end, an old one keeps its place.
  unfoldable pub put : String → V → Dict V → Dict V
  put k v [] = (k, v) ∷ []
  put k v ((j, w) ∷ d) = if j == k then (k, v) ∷ d else (j, w) ∷ put k v d

  -- `d.pop(k, None)`
  unfoldable pub pop : String → Dict V → Dict V
  pop k [] = []
  pop k ((j, w) ∷ d) = let rest = pop k d in if j == k then rest else (j, w) ∷ rest

  -- The entries whose value passes the test.
  unfoldable pub keep : (V → Bool) → Dict V → Dict V
  keep p [] = []
  keep p ((j, w) ∷ d) = let rest = keep p d in if p w then (j, w) ∷ rest else rest

  -- `len(d)`
  unfoldable pub size : Dict V → ℕ
  size [] = 0
  size (e ∷ d) = suc (size d)

  -- No key stands twice.
  abbrev pub IsUnique : Dict V → Type ℓ
  IsUnique [] = Unit
  IsUnique ((k, v) ∷ d) = (get k d ≡ none) × IsUnique d

  pub get-put :
      (k j : String) (v : V) (d : Dict V) → get j (put k v d) ≡ (if k == j then some v else get j d)
  unfolding get put
  get-put k j v [] = refl
  get-put k j v ((i, w) ∷ d) = ground (arith, eq_iff k j, eq_iff i k, eq_iff i j, get-put k j v d)

  pub get-pop : (k j : String) (d : Dict V) → get j (pop k d) ≡ (if k == j then none else get j d)
  unfolding get pop
  get-pop k j [] = ground arith
  get-pop k j ((i, w) ∷ d) = ground (arith, eq_iff k j, eq_iff i k, eq_iff i j, get-pop k j d)

  get-keep-none :
      (p : V → Bool) (k : String) (d : Dict V) → get k d ≡ none → get k (keep p d) ≡ none
  unfolding get keep
  get-keep-none p k [] h = refl
  get-keep-none p k ((j, w) ∷ d) h = ground (arith, get-keep-none p k d)

  pub get-keep :
      (p : V → Bool) (k : String) (d : Dict V) → IsUnique d → get k (keep p d) ≡ keep_if p (get k d)
  unfolding get keep
  get-keep p k [] u = refl
  get-keep p k ((j, w) ∷ d) u = ground (arith, eq_iff j k, get-keep p k d u.1, get-keep-none p k d)

  pub put-IsUnique : (k : String) (v : V) (d : Dict V) → IsUnique d → IsUnique (put k v d)
  unfolding get put
  put-IsUnique k v [] u = (refl, tt)
  put-IsUnique k v ((j, w) ∷ d) u = elim (Bool-cases (j == k)) [
    | inl e ↦ rw e (rw ((eq_iff j k).0 e) at u.0, u.1)
    | inr e ↦ rw e (ground (arith, get-put k j v d, eq_iff j k, eq_iff k j), put-IsUnique k v d u.1)
  ]

  pub pop-IsUnique : (k : String) (d : Dict V) → IsUnique d → IsUnique (pop k d)
  unfolding pop
  pop-IsUnique k [] u = tt
  pop-IsUnique k ((j, w) ∷ d) u = elim (Bool-cases (j == k)) [
    | inl e ↦ rw e (pop-IsUnique k d u.1)
    | inr e ↦ rw e (ground (arith, get-pop k j d), pop-IsUnique k d u.1)
  ]

  pub keep-IsUnique : (p : V → Bool) (d : Dict V) → IsUnique d → IsUnique (keep p d)
  unfolding keep
  keep-IsUnique p [] u = tt
  keep-IsUnique p ((j, w) ∷ d) u = elim (Bool-cases (p w)) [
    | inl e ↦ rw e (get-keep-none p j d u.0, keep-IsUnique p d u.1)
    | inr e ↦ rw e (keep-IsUnique p d u.1)
  ]

  -- Every value satisfies the predicate.
  abbrev pub All {κ} : (V → Type κ) → Dict V → Type κ
  All P [] = Unit
  All P ((k, v) ∷ d) = P v × All P d

module _ {ℓ κ} {V : Type ℓ} (P : V → Type κ) where
  pub All-get : (k : String) (d : Dict V) {v : V} → All P d → get k d ≡ some v → P v
  unfolding get
  All-get k [] h e = cc
  All-get k ((j, w) ∷ d) h e = elim (Bool-cases (j == k)) [
    | inl t ↦ subst P (cc (rw t at e)) h.0
    | inr t ↦ All-get k d h.1 (rw t at e)
  ]

  pub All-put : (k : String) (v : V) (d : Dict V) → P v → All P d → All P (put k v d)
  unfolding put
  All-put k v [] h a = (h, tt)
  All-put k v ((j, w) ∷ d) h a = elim (Bool-cases (j == k)) [
    | inl t ↦ rw t (h, a.1)
    | inr t ↦ rw t (a.0, All-put k v d h a.1)
  ]

  pub All-pop : (k : String) (d : Dict V) → All P d → All P (pop k d)
  unfolding pop
  All-pop k [] a = tt
  All-pop k ((j, w) ∷ d) a = elim (Bool-cases (j == k)) [
    | inl t ↦ rw t (All-pop k d a.1)
    | inr t ↦ rw t (a.0, All-pop k d a.1)
  ]

  pub All-keep : (p : V → Bool) (d : Dict V) → All P d → All P (keep p d)
  unfolding keep
  All-keep p [] a = tt
  All-keep p ((j, w) ∷ d) a = elim (Bool-cases (p w)) [
    | inl t ↦ rw t (a.0, All-keep p d a.1)
    | inr t ↦ rw t (All-keep p d a.1)
  ]
