-- ===== src/Statuses/Capacity.antt =====
-- The number of runs in the registry of backend/agent/run_status.py.
use refactor_agent.Common.{
  leb, Bool-cases, Option-cases, take, contains, distinct, IsDistinct, ℕ, suc, ◌+◌, ◌-◌, ◌≤◌,
  String, ◌≡◌, refl, sym, ap, subst, ◌∙◌, inl, inr, false, not, ◌||◌, some, List, [], ◌∷◌, arith,
  ◌==◌, eq_iff,
}
use refactor_agent.Dict
use refactor_agent.Dict.{Dict, size}
use refactor_agent.Statuses.{
  StatusRecord, Change, by_age, names_of, prune, start, update_found, update, get_status, count,
  Call, call, call_each, starts, updates, reads, counts,
}
use refactor_agent.Statuses.Names.{keep-IsDistinct, contains-by_age, by_age-IsDistinct}
use refactor_agent.Statuses.Sizes.{
  length-by_age, length-take, take-Subset, take-IsDistinct, pop_all-size,
}

names-put :
    (k : String) (r : StatusRecord) (d : Dict.Dict StatusRecord)
    → IsDistinct (names_of d)
    → IsDistinct (names_of (Dict.put k r d))
      × (Dict.size (Dict.put k r d) ≤ suc (Dict.size d))
      × ((j : String)
          → contains j (names_of (Dict.put k r d)) ≡ (k == j || contains j (names_of d)))
unfolding names_of Dict.put Dict.size contains
names-put k r [] u = ((refl, tt), omega arith, λ j. refl)
names-put k r ((i, q) ∷ d) u = elim (Bool-cases (i == k)) [
  | inl e ↦
      let same = (eq_iff i k).0 e in
      rw e (
        (subst (λ j. contains j (names_of d) ≡ false) same u.0, u.1),
        omega arith,
        λ j. rw same (ground arith),
      )
  | inr e ↦
      let (distinct, size, names) = names-put k r d u.1 in
      rw e (
        (ground (arith, names i, e, eq_iff k i, eq_iff i k, u.0), distinct),
        omega arith,
        λ j. ground (arith, names j),
      )
]

size-put_found :
    (k : String) (r : StatusRecord) (d : Dict.Dict StatusRecord) {q : StatusRecord}
    → Dict.get k d ≡ some q
    → Dict.size (Dict.put k r d) ≡ Dict.size d
unfolding Dict.get Dict.put Dict.size
size-put_found k r [] h = absurd (ground arith)
size-put_found k r ((i, w) ∷ d) {q} h = elim (Bool-cases (i == k)) [
  | inl e ↦ rw e refl
  | inr e ↦ rw e (ap suc (size-put_found k r d {q = q} (ground (arith, h, e))))
]

module _ (ttl_seconds capacity : ℕ) (room : 1 ≤ capacity) where
  -- Each run stands once, and there are not too many.
  abbrev pub IsBounded : Dict.Dict StatusRecord → Type 0
  IsBounded rs = IsDistinct (names_of rs) × (Dict.size rs ≤ capacity)

  prune-size :
      (now reserved : ℕ) (rs : Dict.Dict StatusRecord)
      → reserved ≤ 1
      → IsDistinct (names_of rs)
      → IsDistinct (names_of (prune ttl_seconds capacity now reserved rs))
        × (Dict.size (prune ttl_seconds capacity now reserved rs) + reserved ≤ capacity)
  unfolding prune
  prune-size now reserved rs few u =
      let live = Dict.keep (λ r. not (leb r.expires_at now)) rs in
      let u' = keep-IsDistinct (λ r. not (leb r.expires_at now)) rs u in
      let n = Dict.size live + reserved - capacity in
      let old = names_of (by_age live) in
      let total = length-by_age live in
      let taken = length-take n old (omega arith) in
      let (sized, distinct) =
        pop_all-size (take n old) live u' (take-IsDistinct n old (by_age-IsDistinct live u'))
          (λ k m. sym (contains-by_age live k) ∙ take-Subset n old k m) in
      (distinct, omega arith)

  pub start-IsBounded :
      (now : ℕ) (run_id thread_id : String) (rs : Dict.Dict StatusRecord)
      → IsBounded rs
      → IsBounded (start ttl_seconds capacity now run_id thread_id rs).1
  unfolding start
  start-IsBounded now run_id thread_id rs (u, fits) =
      let (distinct, free) = prune-size now 1 rs (omega arith) u in
      let (u', size, _) = names-put run_id _ (prune ttl_seconds capacity now 1 rs) distinct in
      (u', omega arith)

  update_found-IsBounded :
      (now : ℕ) (run_id : String) (c : Change) (rs : Dict.Dict StatusRecord)
      → IsBounded rs
      → IsBounded (update_found ttl_seconds capacity now run_id c (Dict.get run_id rs) rs).1
  unfolding update_found
  update_found-IsBounded now run_id c rs (u, fits) = elim (Option-cases (Dict.get run_id rs)) [
    | inl e ↦ rw (e, update_found) (u, fits)
    | inr (r, e) ↦
        rw (e, update_found)
          ((names-put run_id _ rs u).0, rw (size-put_found run_id _ rs {q = r} e) fits)
  ]

  pruned-IsBounded :
      (now : ℕ) (rs : Dict.Dict StatusRecord)
      → IsBounded rs
      → IsBounded (prune ttl_seconds capacity now 0 rs)
  pruned-IsBounded now rs (u, fits) =
      let (distinct, free) = prune-size now 0 rs (omega arith) u in (distinct, omega arith)

  call-IsBounded :
      (c : Call ttl_seconds capacity) (rs : Dict.Dict StatusRecord)
      → IsBounded rs
      → IsBounded (call ttl_seconds capacity c rs)
  unfolding call update get_status count
  call-IsBounded (starts now run_id thread_id) rs b = start-IsBounded now run_id thread_id rs b
  call-IsBounded (updates now run_id c) rs b =
      update_found-IsBounded now run_id c (prune ttl_seconds capacity now 0 rs)
        (pruned-IsBounded now rs b)
  call-IsBounded (reads now run_id thread_id) rs b = pruned-IsBounded now rs b
  call-IsBounded (counts now) rs b = pruned-IsBounded now rs b

  calls-IsBounded :
      (cs : List (Call ttl_seconds capacity)) (rs : Dict.Dict StatusRecord)
      → IsBounded rs
      → IsBounded (call_each ttl_seconds capacity cs rs)
  unfolding call_each
  calls-IsBounded [] rs b = b
  calls-IsBounded (c ∷ cs) rs b =
      calls-IsBounded cs (call ttl_seconds capacity c rs) (call-IsBounded c rs b)

  -- After any calls of the methods on an empty registry whose capacity is positive, every run stands
  -- in it once and it holds at most as many runs as its capacity.
  pub call_each-IsBounded :
      (cs : List (Call ttl_seconds capacity)) → IsBounded (call_each ttl_seconds capacity cs [])
  call_each-IsBounded cs = calls-IsBounded cs [] (unfold names_of Dict.size in (tt, omega arith))
