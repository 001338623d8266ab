-- ===== src/Plans/Kahn.antt =====
-- `_assert_acyclic` of backend/agent/plans.py, its loops one by one.
use refactor_agent.Common.{
  if◌then◌else◌, Bool-cases, Option-cases, ℤ, is_zero, contains, contains-append,
  contains-cons_self, contains-cons, distinct, IsDistinct, Subset, String, ◌≡◌, refl, sym, ap,
  subst, ◌∙◌, inl, inr, Bool, true, false, ◌&&◌, ◌||◌, some, some-injective, List, [], ◌∷◌, ◌++◌,
  append-nil, append_assoc, arith, ◌==◌, eq_iff,
}
use refactor_agent.Dict
use refactor_agent.Dict.{Dict, get-put}
use refactor_agent.Plans.{
  RefactorTask, task_ids, Among, lower, append_dependent, append_dependents, relax,
}
use refactor_agent.Plans.Ordering.{HasUniqueIds, Among-contains}

-- The ids of the tasks that depend on one, in the plan's order.
abbrev pub users : String → List RefactorTask → List String
users k [] = []
users k (t ∷ ts) = if contains k t.dependencies then t.id ∷ users k ts else users k ts

pub users-Among :
    (k id : String) (ts : List RefactorTask)
    → contains id (users k ts) ≡ true
    → (t : RefactorTask) × Among t ts × (t.id ≡ id) × (contains k t.dependencies ≡ true)
unfolding contains
users-Among k id [] h = cc
users-Among k id (t ∷ ts) h = elim (Bool-cases (contains k t.dependencies && t.id == id)) [
  | inl e ↦ (t, inl refl, ground (arith, eq_iff t.id id), ground arith)
  | inr e ↦ let (u, m, named, dep) = users-Among k id ts (ground arith) in (u, inr m, named, dep)
]

pub Among-users :
    (k : String) (t : RefactorTask) (ts : List RefactorTask)
    → Among t ts
    → contains k t.dependencies ≡ true
    → contains t.id (users k ts) ≡ true
unfolding contains
Among-users k t [] m dep = absurd m
Among-users k t (u ∷ us) (inl e) dep = rw (← e) (rw dep (contains-cons_self t.id (users k us)))
Among-users k t (u ∷ us) (inr m) dep = ground (arith, Among-users k t us m)

pub users-IsDistinct :
    (k : String) (ts : List RefactorTask) → HasUniqueIds ts → IsDistinct (users k ts)
unfolding task_ids
users-IsDistinct k [] d = tt
users-IsDistinct k (t ∷ ts) d = elim (Bool-cases (contains k t.dependencies)) [
  | inl e ↦ rw e (fresh, users-IsDistinct k ts d.1)
  | inr e ↦ rw e (users-IsDistinct k ts d.1)
]
  where
    fresh : contains t.id (users k ts) ≡ false
    fresh = elim (Bool-cases (contains t.id (users k ts))) [
      | inr e ↦ e
      | inl e ↦
          let (u, m, named, dep) = users-Among k t.id ts e in
          let listed = Among-contains u ts m in absurd (ground (arith, d.0))
    ]

-- A key of the dictionary.
abbrev pub HasKey {ℓ} : {V : Type ℓ} → String → Dict.Dict V → Type ℓ
HasKey {V} k d = (v : V) × (Dict.get k d ≡ some v)

put-HasKey {ℓ} :
    {V : Type ℓ} (k j : String) (w : V) (d : Dict.Dict V) → HasKey j d → HasKey j (Dict.put k w d)
put-HasKey k j w d (v, e) = elim (Bool-cases (k == j)) [
  | inl h ↦ (w, get-put k j w d ∙ rw h)
  | inr h ↦ (v, get-put k j w d ∙ rw h e)
]

-- The dependents after the loop over one task's dependencies.
append_dependent_lem :
    (id : String) (ks : List String) (d : Dict.Dict (List String))
    → IsDistinct ks
    → ((k : String) → contains k ks ≡ true → HasKey k d)
    → (d' : Dict.Dict (List String)) × (append_dependent id ks d ≡ some d')
      × ((k : String) (ids : List String)
          → Dict.get k d ≡ some ids
          → Dict.get k d' ≡ some (if contains k ks then ids ++ id ∷ [] else ids))
unfolding append_dependent contains
append_dependent_lem id [] d u known = (d, refl, λ k ids h. h)
append_dependent_lem id (k ∷ ks) d u known =
    let (ids, e) = known k (contains-cons_self k ks) in
    let next = Dict.put k (ids ++ id ∷ []) d in
    let (d', run, after) =
      append_dependent_lem id ks next u.1
        (λ j m. put-HasKey k j (ids ++ id ∷ []) d (known j (contains-cons k j ks m))) in
    (d', rw (e, append_dependent) run, λ j js h. step ids e d' after j js h)
  where
    step :
        (ids : List String)
        → Dict.get k d ≡ some ids
        → (d' : Dict.Dict (List String))
        → ((j : String) (js : List String)
            → Dict.get j (Dict.put k (ids ++ id ∷ []) d) ≡ some js
            → Dict.get j d' ≡ some (if contains j ks then js ++ id ∷ [] else js))
        → (j : String) (js : List String) → Dict.get j d ≡ some js
        → Dict.get j d' ≡ some (if contains j (k ∷ ks) then js ++ id ∷ [] else js)
    step ids e d' after j js h = elim (Bool-cases (k == j)) [
      | inl same ↦
          ground (arith, after j (ids ++ id ∷ []), get-put k j (ids ++ id ∷ []) d, eq_iff k j, u.0)
      | inr other ↦ ground (arith, after j js, get-put k j (ids ++ id ∷ []) d, eq_iff k j)
    ]

append_dependent-HasKey :
    (id : String) (ks : List String) (d d' : Dict.Dict (List String)) (k : String)
    → append_dependent id ks d ≡ some d'
    → HasKey k d
    → HasKey k d'
unfolding append_dependent
append_dependent-HasKey id [] d d' k run has = subst (HasKey k) (some-injective d d' run) has
append_dependent-HasKey id (j ∷ ks) d d' k run has = elim (Option-cases (Dict.get j d)) [
  | inl e ↦ absurd (ground arith)
  | inr (ids, e) ↦
      append_dependent-HasKey id ks (Dict.put j (ids ++ id ∷ []) d) d' k
        (rw (e, append_dependent) at run) (put-HasKey j k (ids ++ id ∷ []) d has)
]

-- `dependents` at the end: of each known id, the tasks that depend on it.
pub append_dependents_lem :
    (ts : List RefactorTask) (d : Dict.Dict (List String))
    → ((t : RefactorTask) → Among t ts → IsDistinct t.dependencies)
    → ((t : RefactorTask) (k : String) → Among t ts → contains k t.dependencies ≡ true → HasKey k d)
    → (d' : Dict.Dict (List String)) × (append_dependents ts d ≡ some d')
      × ((k : String) (ids : List String)
          → Dict.get k d ≡ some ids
          → Dict.get k d' ≡ some (ids ++ users k ts))
unfolding append_dependents
append_dependents_lem [] d once known = (d, refl, λ k ids h. h ∙ ap some (sym (append-nil ids)))
append_dependents_lem (t ∷ ts) d once known =
    let (d₁, run, after) =
      append_dependent_lem t.id t.dependencies d (once t (inl refl))
        (λ k m. known t k (inl refl) m) in
    let (d', runs, afters) =
      append_dependents_lem ts d₁ (λ u m. once u (inr m))
        (λ u k m dep.
          append_dependent-HasKey t.id t.dependencies d d₁ k run (known u k (inr m) dep)) in
    (
      d',
      rw (run, append_dependents) runs,
      λ k ids h. elim (Bool-cases (contains k t.dependencies)) [
        | inl e ↦ rw e (
            afters k (ids ++ t.id ∷ []) (after k ids h ∙ rw e)
            ∙ ap some (append_assoc ids (t.id ∷ []) (users k ts)))
        | inr e ↦ rw e (afters k ids (after k ids h ∙ rw e))
      ],
    )

-- What one push to `ready` does.
module _ (b : Bool) (k : String) (ready : List String) where
  abbrev pushed_to : List String
  pushed_to = if b then k ∷ ready else ready

  pushed-IsDistinct : contains k ready ≡ false → IsDistinct ready → IsDistinct pushed_to
  pushed-IsDistinct f d = elim (Bool-cases b) [ inl e ↦ rw e (f, d) | inr e ↦ rw e d ]

  pushed-disjoint :
      (ks : List String)
      → contains k ks ≡ false
      → (j : String) → contains j ks ≡ true
      → contains j ready ≡ false
      → contains j pushed_to ≡ false
  unfolding contains
  pushed-disjoint ks out j m f = ground (arith, eq_iff k j)

  pushed-within :
      (ks : List String) (j : String)
      → contains j (ks ++ pushed_to) ≡ true
      → contains j (k ∷ ks ++ ready) ≡ true
  unfolding contains
  pushed-within ks j h = ground (arith, contains-append j ks pushed_to, contains-append j ks ready)

-- The inner loop, over ids without repetition.
pub relax_lem :
    (ks : List String) (degree : Dict.Dict ℤ) (ready : List String)
    → IsDistinct ks
    → ((k : String) → contains k ks ≡ true → HasKey k degree)
    → (degree' : Dict.Dict ℤ) × (ready' : List String) × (relax ks degree ready
        ≡ some (degree', ready'))
      × ((k : String) (n : ℤ)
          → Dict.get k degree ≡ some n
          → (Dict.get k degree' ≡ some (if contains k ks then lower n else n))
            × (contains k ready' ≡ (contains k ready || (contains k ks && is_zero (lower n)))))
      × (IsDistinct ready
          → ((k : String) → contains k ks ≡ true → contains k ready ≡ false)
          → IsDistinct ready')
      × (Subset ready' (ks ++ ready))
unfolding relax contains
relax_lem [] degree ready u known =
    (degree, ready, refl, λ k n h. (h, ground arith), λ d f. d, λ k h. h)
relax_lem (k ∷ ks) degree ready u known =
    let (n, e) = known k (contains-cons_self k ks) in
    let next = Dict.put k (lower n) degree in
    let pushed = if is_zero (lower n) then k ∷ ready else ready in
    let (degree', ready', run, after, distinct, within) =
      relax_lem ks next pushed u.1
        (λ j m. put-HasKey k j (lower n) degree (known j (contains-cons k j ks m))) in
    (
      degree',
      ready',
      rw (e, relax) run,
      λ j m h.
          let put_k = get-put k j (lower n) degree in
          elim (Bool-cases (k == j)) [
            | inl same ↦ ground (arith, after j (lower n), put_k, eq_iff k j, u.0)
            | inr other ↦ ground (arith, after j m, put_k, eq_iff k j)
          ],
      λ d f.
          distinct (pushed-IsDistinct (is_zero (lower n)) k ready (f k (contains-cons_self k ks)) d)
            (λ j m.
              pushed-disjoint (is_zero (lower n)) k ready ks u.0 j m
                (f j (contains-cons k j ks m))),
      λ j h. pushed-within (is_zero (lower n)) k ready ks j (within j h),
    )
