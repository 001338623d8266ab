-- ===== src/Downstream/Exact.antt =====
-- The transitive downstream of tasks, as `_downstream_task_ids` computes it and as a relation.
use refactor_agent.Common.{
  if◌then◌else◌, Bool-cases, length, contains, contains-select, contains-cons_self, contains-cons,
  any_of-contains, contains_of_any_of, ℕ, zero, suc, ◌≤◌, ◌<◌, String, ◌≡◌, refl, sym, ap, ◌∙◌, ◌↔◌,
  inl, inr, Bool, true, false, List, [], ◌∷◌, arith, ◌==◌, eq_iff,
}
use refactor_agent.Plans.{RefactorTask, task_ids, Among}
use refactor_agent.Downstream.{touches, joins, spread, spread_all, downstream_task_ids}

-- A task is downstream of the roots if it is one, or depends on a downstream task.
pub data Downstream (tasks : List RefactorTask) (roots : List String) : String → Type 0 where
  root : (id : String) → contains id roots ≡ true → Downstream tasks roots id
  step :
      (t : RefactorTask) (d : String)
      → Among t tasks
      → contains d t.dependencies ≡ true
      → Downstream tasks roots d
      → Downstream tasks roots t.id

-- One task of a round, by its test.
spread-join :
    (t : RefactorTask) (ts : List RefactorTask) (aff : List String) (c : Bool)
    → joins aff t ≡ true
    → spread (t ∷ ts) aff c ≡ spread ts (t.id ∷ aff) true
unfolding spread
spread-join t ts aff c h = rw (h, spread) (ap (spread ts (t.id ∷ aff)) (ground arith))

spread-stay :
    (t : RefactorTask) (ts : List RefactorTask) (aff : List String) (c : Bool)
    → joins aff t ≡ false
    → spread (t ∷ ts) aff c ≡ spread ts aff c
unfolding spread
spread-stay t ts aff c h = rw (h, spread) (ap (spread ts aff) (ground arith))

spread-keeps :
    (ts : List RefactorTask) (aff : List String) (c : Bool) (k : String)
    → contains k aff ≡ true
    → contains k (spread ts aff c).0 ≡ true
spread-keeps [] aff c k h = unfold spread in h
spread-keeps (t ∷ ts) aff c k h = elim (Bool-cases (joins aff t)) [
  | inl j ↦
      rw (spread-join t ts aff c j)
        (spread-keeps ts (t.id ∷ aff) true k (contains-cons t.id k aff h))
  | inr j ↦ rw (spread-stay t ts aff c j) (spread-keeps ts aff c k h)
]

spread-changed : (ts : List RefactorTask) (aff : List String) → (spread ts aff true).1 ≡ true
unfolding spread
spread-changed [] aff = refl
spread-changed (t ∷ ts) aff = spread-changed ts _

-- The tasks outside the set.
abbrev missing : List RefactorTask → List String → ℕ
missing [] aff = 0
missing (t ∷ ts) aff = if contains t.id aff then missing ts aff else suc (missing ts aff)

missing_mono :
    (ts : List RefactorTask) (aff aff' : List String)
    → ((k : String) → contains k aff ≡ true → contains k aff' ≡ true)
    → missing ts aff' ≤ missing ts aff
missing_mono [] aff aff' h = omega arith
missing_mono (t ∷ ts) aff aff' h = ground (arith, h t.id, missing_mono ts aff aff' h)

missing-le-length : (ts : List RefactorTask) (aff : List String) → missing ts aff ≤ length ts
missing-le-length [] aff = omega arith
missing-le-length (t ∷ ts) aff = ground (arith, missing-le-length ts aff)

-- What a joining task gains: it stands in the set from then on.
spread-joins :
    (t : RefactorTask) (ts : List RefactorTask) (aff : List String)
    → joins aff t ≡ true
    → missing (t ∷ ts) (spread ts (t.id ∷ aff) true).0 < missing (t ∷ ts) aff
unfolding joins
spread-joins t ts aff h =
    let grown =
      missing_mono ts aff (spread ts (t.id ∷ aff) true).0
        (λ k m. spread-keeps ts (t.id ∷ aff) true k (contains-cons t.id k aff m)) in
    let here = spread-keeps ts (t.id ∷ aff) true t.id (contains-cons_self t.id aff) in
    rw here (ground arith)

-- A round that reports a change leaves fewer tasks outside.
spread-missing :
    (ts : List RefactorTask) (aff : List String)
    → (spread ts aff false).1 ≡ true
    → missing ts (spread ts aff false).0 < missing ts aff
spread-missing [] aff h = unfold spread in cc
spread-missing (t ∷ ts) aff h = elim (Bool-cases (joins aff t)) [
  | inl j ↦ rw (spread-join t ts aff false j) (spread-joins t ts aff j)
  | inr j ↦
      let e = spread-stay t ts aff false j in
      rw e (
        ground (
          arith,
          spread-missing ts aff (ap (λ p. p.1) (sym e) ∙ h),
          spread-keeps ts aff false t.id,
        ))
]

-- No task outside the set depends on one inside.
abbrev IsClosed : List RefactorTask → List String → Type 0
IsClosed [] aff = Unit
IsClosed (t ∷ ts) aff = (joins aff t ≡ false) × IsClosed ts aff

-- A round that reports no change leaves the set as it was, and the set is closed.
spread-IsClosed :
    (ts : List RefactorTask) (aff : List String)
    → (spread ts aff false).1 ≡ false
    → ((spread ts aff false).0 ≡ aff) × IsClosed ts aff
spread-IsClosed [] aff h = (unfold spread in refl, tt)
spread-IsClosed (t ∷ ts) aff h = elim (Bool-cases (joins aff t)) [
  | inl j ↦
      let e : true ≡ false =
        sym (spread-changed ts (t.id ∷ aff))
        ∙ ap (λ p. p.1) (sym (spread-join t ts aff false j))
        ∙ h in
      cc
  | inr j ↦
      let e = spread-stay t ts aff false j in
      let ih = spread-IsClosed ts aff (ap (λ p. p.1) (sym e) ∙ h) in
      (ap (λ p. p.0) e ∙ ih.0, (j, ih.1))
]

-- With a round of fuel for each task outside and one more, the loop ends on a closed set.
spread_all-IsClosed :
    (fuel : ℕ) (ts : List RefactorTask) (aff : List String)
    → missing ts aff < fuel
    → IsClosed ts (spread_all fuel ts aff)
unfolding spread_all
spread_all-IsClosed zero ts aff h = absurd (omega arith)
spread_all-IsClosed (suc fuel) ts aff h = elim (Bool-cases (spread ts aff false).1) [
  | inl e ↦
      rw (e, spread_all) (spread_all-IsClosed fuel ts _ (omega (arith, spread-missing ts aff e)))
  | inr e ↦ rw (e, spread_all) (let c = spread-IsClosed ts aff e in rw c.0 c.1)
]

spread_all-keeps :
    (fuel : ℕ) (ts : List RefactorTask) (aff : List String) (k : String)
    → contains k aff ≡ true
    → contains k (spread_all fuel ts aff) ≡ true
unfolding spread_all
spread_all-keeps zero ts aff k h = h
spread_all-keeps (suc fuel) ts aff k h =
    let kept = spread-keeps ts aff false k h in
    elim (Bool-cases (spread ts aff false).1) [
      | inl e ↦ rw (e, spread_all) (spread_all-keeps fuel ts _ k kept)
      | inr e ↦ rw (e, spread_all) kept
    ]

IsClosed-Among :
    (t : RefactorTask) (ts : List RefactorTask) (aff : List String)
    → IsClosed ts aff
    → Among t ts
    → joins aff t ≡ false
IsClosed-Among t [] aff c m = absurd m
IsClosed-Among t (u ∷ us) aff c (inl e) = rw e c.0
IsClosed-Among t (u ∷ us) aff c (inr m) = IsClosed-Among t us aff c.1 m

module _ (tasks : List RefactorTask) (roots : List String) where
  abbrev IsSound : List String → Type 0
  IsSound aff = (k : String) → contains k aff ≡ true → Downstream tasks roots k

  joins-IsSound :
      (t : RefactorTask) (aff : List String)
      → Among t tasks
      → joins aff t ≡ true
      → IsSound aff
      → IsSound (t.id ∷ aff)
  unfolding joins touches contains
  joins-IsSound t aff m j sound k h = elim (Bool-cases (t.id == k)) [
    | inl e ↦
        let (d, dep, old) =
          contains_of_any_of (λ d. contains d aff) t.dependencies (ground arith) in
        rw (← (eq_iff t.id k).0 e) (step t d m dep (sound d old))
    | inr e ↦ sound k (ground arith)
  ]

  spread-IsSound :
      (ts : List RefactorTask) (aff : List String) (c : Bool)
      → ((t : RefactorTask) → Among t ts → Among t tasks)
      → IsSound aff
      → IsSound (spread ts aff c).0
  spread-IsSound [] aff c sub sound = unfold spread in sound
  spread-IsSound (t ∷ ts) aff c sub sound = elim (Bool-cases (joins aff t)) [
    | inl j ↦ rw (spread-join t ts aff c j) (
        spread-IsSound ts (t.id ∷ aff) true (λ u m. sub u (inr m))
          (joins-IsSound t aff (sub t (inl refl)) j sound))
    | inr j ↦ rw (spread-stay t ts aff c j) (spread-IsSound ts aff c (λ u m. sub u (inr m)) sound)
  ]

  spread_all-IsSound :
      (fuel : ℕ) (aff : List String) → IsSound aff → IsSound (spread_all fuel tasks aff)
  unfolding spread_all
  spread_all-IsSound zero aff sound = sound
  spread_all-IsSound (suc fuel) aff sound =
      let once = spread-IsSound tasks aff false (λ t m. m) sound in
      elim (Bool-cases (spread tasks aff false).1) [
        | inl e ↦ rw (e, spread_all) (spread_all-IsSound fuel _ once)
        | inr e ↦ rw (e, spread_all) once
      ]

  complete :
      (aff : List String) {k : String}
      → IsClosed tasks aff
      → ((id : String) → contains id roots ≡ true → contains id aff ≡ true)
      → Downstream tasks roots k
      → contains k aff ≡ true
  unfolding joins touches
  complete aff closed old (root id h) = old id h
  complete aff closed old (step t d m dep below) =
      let inside = complete aff closed old below in
      let quiet = IsClosed-Among t tasks aff closed m in
      ground (arith, any_of-contains (λ x. contains x aff) t.dependencies d)

  -- `_downstream_task_ids` returns exactly the ids of the plan that are downstream of the roots: the
  -- fuel of one round for each task and one more is enough for the loop to end by itself.
  pub downstream_task_ids_lem :
      (id : String)
      → (contains id (downstream_task_ids tasks roots) ≡ true)
        ↔ ((contains id (task_ids tasks) ≡ true) × Downstream tasks roots id)
  unfolding downstream_task_ids
  downstream_task_ids_lem id =
      let final = spread_all (suc (length tasks)) tasks roots in
      let closed : IsClosed tasks final =
        spread_all-IsClosed (suc (length tasks)) tasks roots
          (omega (arith, missing-le-length tasks roots)) in
      let e = contains-select (λ k. contains k final) id (task_ids tasks) in
      (
        λ h. (ground arith, spread_all-IsSound (suc (length tasks)) roots root id (ground arith)),
        λ (listed, below).
            e
            ∙ rw listed (
                complete final closed (λ k. spread_all-keeps (suc (length tasks)) tasks roots k)
                  below),
      )
