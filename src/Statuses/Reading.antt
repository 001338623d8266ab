-- ===== src/Statuses/Reading.antt =====
-- What `get` of backend/agent/run_status.py returns after `start`.
use refactor_agent.Common.{
  leb, if◌then◌else◌, Bool-cases, take, contains, IsDistinct, ℕ, ◌+◌, ◌-◌, ◌≤◌, ◌<◌, String, ◌≡◌,
  refl, ap, ◌∙◌, inl, inr, Bool, false, not, none, some, [], ◌∷◌, arith, ◌==◌, eq_refl,
}
use refactor_agent.Dict
use refactor_agent.Dict.{Dict, get-put, get-keep}
use refactor_agent.Reviews.{pop_all}
use refactor_agent.Statuses.{
  StatusRecord, by_age, names_of, prune, fresh_record, start, read_for, get_status,
}
use refactor_agent.Statuses.Capacity.{IsBounded, start-IsBounded}

get-unnamed :
    (k : String) (d : Dict.Dict StatusRecord)
    → contains k (names_of d) ≡ false
    → Dict.get k d ≡ none
unfolding contains names_of Dict.get
get-unnamed k [] h = refl
get-unnamed k ((j, r) ∷ d) h = ground (arith, get-unnamed k d, h)

named-IsUnique : (d : Dict.Dict StatusRecord) → IsDistinct (names_of d) → Dict.IsUnique d
unfolding names_of
named-IsUnique [] h = tt
named-IsUnique ((j, r) ∷ d) h = (get-unnamed j d h.0, named-IsUnique d h.1)

size-keep-le :
    (p : StatusRecord → Bool) (d : Dict.Dict StatusRecord) → Dict.size (Dict.keep p d) ≤ Dict.size d
unfolding Dict.size Dict.keep
size-keep-le p [] = omega arith
size-keep-le p ((j, r) ∷ d) = elim (Bool-cases (p r)) [
  | inl e ↦ rw e (omega (arith, size-keep-le p d))
  | inr e ↦ rw e (omega (arith, size-keep-le p d))
]

module _ (ttl_seconds capacity : ℕ) (room : 1 ≤ capacity) where
  -- Nothing is evicted where no slot is asked for.
  prune-bounded :
      (now : ℕ) (rs : Dict.Dict StatusRecord)
      → Dict.size rs ≤ capacity
      → prune ttl_seconds capacity now 0 rs ≡ Dict.keep (λ r. not (leb r.expires_at now)) rs
  unfolding prune pop_all
  prune-bounded now rs fits =
      let live = Dict.keep (λ r. not (leb r.expires_at now)) rs in
      let small = size-keep-le (λ r. not (leb r.expires_at now)) rs in
      let none_over : Dict.size live + 0 - capacity ≡ 0 = omega arith in
      ap (λ n. pop_all (take n (names_of (by_age live))) live) none_over

  -- In a registry where each run stands once and that is within its capacity, which is positive: if
  -- `get` is the first call after `start`, at any time before the run expires, it returns what `start`
  -- has returned to a reader of the thread that started the run, and nothing to any other.
  pub start-get_status :
      (now later : ℕ) (run_id thread_id reader : String) (rs : Dict.Dict StatusRecord)
      → IsBounded ttl_seconds capacity room rs
      → later < now + ttl_seconds
      → (get_status ttl_seconds capacity later run_id reader
          (start ttl_seconds capacity now run_id thread_id rs).1).0
        ≡ (if thread_id == reader
            then some (start ttl_seconds capacity now run_id thread_id rs).0
            else none)
  unfolding get_status start read_for
  start-get_status now later run_id thread_id reader rs b soon =
      let after = (start ttl_seconds capacity now run_id thread_id rs).1 in
      let (u, fits) = start-IsBounded ttl_seconds capacity room now run_id thread_id rs b in
      let live = λ (r : StatusRecord). not (leb r.expires_at later) in
      let fresh = fresh_record ttl_seconds capacity now run_id thread_id in
      let found = get-keep live run_id after (named-IsUnique after u) in
      let put_there : Dict.get run_id after ≡ some fresh =
        get-put run_id run_id fresh (prune ttl_seconds capacity now 1 rs)
        ∙ rw (eq_refl run_id) refl in
      let alive : Dict.keep_if live (some fresh) ≡ some fresh = ground arith in
      let kept : Dict.get run_id (prune ttl_seconds capacity later 0 after) ≡ some fresh =
        ap (Dict.get run_id) (prune-bounded later after fits)
        ∙ (found ∙ (ap (Dict.keep_if live) put_there ∙ alive)) in
      ap (read_for ttl_seconds capacity reader) kept
