-- ===== src/Statuses/Names.antt =====
-- The names of the runs in the registry of backend/agent/run_status.py.
use refactor_agent.Common.{
  leb, Bool-cases, length, select, contains, IsDistinct, ℕ, suc, String, ◌≡◌, refl, ap, ◌∙◌, inl,
  inr, Bool, true, false, not, ◌||◌, List, [], ◌∷◌, arith, ◌==◌, eq_iff,
}
use refactor_agent.Dict
use refactor_agent.Dict.{Dict}
use refactor_agent.Statuses.{StatusRecord, insert_by_age, by_age, names_of}

pub names-size : (d : Dict.Dict StatusRecord) → length (names_of d) ≡ Dict.size d
unfolding names_of Dict.size
names-size [] = refl
names-size ((k, r) ∷ d) = ap suc (names-size d)

pub names-pop :
    (k : String) (d : Dict.Dict StatusRecord)
    → names_of (Dict.pop k d) ≡ select (λ j. not (j == k)) (names_of d)
unfolding names_of Dict.pop select
names-pop k [] = refl
names-pop k ((j, r) ∷ d) = elim (Bool-cases (j == k)) [
  | inl e ↦ rw e (names-pop k d)
  | inr e ↦ rw e (ap (◌∷◌ j) (names-pop k d))
]

pub contains-keep :
    (p : StatusRecord → Bool) (d : Dict.Dict StatusRecord) (k : String)
    → contains k (names_of (Dict.keep p d)) ≡ true
    → contains k (names_of d) ≡ true
unfolding names_of Dict.keep contains
contains-keep p [] k h = h
contains-keep p ((j, r) ∷ d) k h = elim (Bool-cases (p r)) [
  | inl e ↦ ground (arith, e, contains-keep p d k)
  | inr e ↦ ground (arith, e, contains-keep p d k)
]

pub keep-IsDistinct :
    (p : StatusRecord → Bool) (d : Dict.Dict StatusRecord)
    → IsDistinct (names_of d)
    → IsDistinct (names_of (Dict.keep p d))
unfolding names_of Dict.keep
keep-IsDistinct p [] h = tt
keep-IsDistinct p ((j, r) ∷ d) h = elim (Bool-cases (p r)) [
  | inl e ↦ rw e (ground (arith, h.0, contains-keep p d j), keep-IsDistinct p d h.1)
  | inr e ↦ rw e (keep-IsDistinct p d h.1)
]

contains-insert :
    (k : String) (n : ℕ) (xs : List (String × ℕ)) (j : String)
    → contains j (names_of (insert_by_age k n xs)) ≡ (k == j || contains j (names_of xs))
unfolding names_of insert_by_age contains
contains-insert k n [] j = refl
contains-insert k n ((i, m) ∷ xs) j = elim (Bool-cases (leb n m)) [
  | inl e ↦ rw e refl
  | inr e ↦ rw e (ground (arith, contains-insert k n xs j))
]

insert-IsDistinct :
    (k : String) (n : ℕ) (xs : List (String × ℕ))
    → contains k (names_of xs) ≡ false
    → IsDistinct (names_of xs)
    → IsDistinct (names_of (insert_by_age k n xs))
unfolding names_of insert_by_age
insert-IsDistinct k n [] out h = (out, tt)
insert-IsDistinct k n ((i, m) ∷ xs) out h = elim (Bool-cases (leb n m)) [
  | inl e ↦ rw e (out, h)
  | inr e ↦ rw e (
    unfold contains in ground (arith, contains-insert k n xs i, eq_iff k i, eq_iff i k, h.0),
    insert-IsDistinct k n xs (unfold contains in ground (arith, out)) h.1,
  )
]

pub contains-by_age :
    (d : Dict.Dict StatusRecord) (j : String)
    → contains j (names_of (by_age d)) ≡ contains j (names_of d)
unfolding names_of by_age contains
contains-by_age [] j = refl
contains-by_age ((k, r) ∷ d) j =
    contains-insert k r.updated_at (by_age d) j ∙ ap (λ b. k == j || b) (contains-by_age d j)

pub by_age-IsDistinct :
    (d : Dict.Dict StatusRecord) → IsDistinct (names_of d) → IsDistinct (names_of (by_age d))
unfolding names_of by_age
by_age-IsDistinct [] h = tt
by_age-IsDistinct ((k, r) ∷ d) h =
    insert-IsDistinct k r.updated_at (by_age d) (contains-by_age d k ∙ h.0)
      (by_age-IsDistinct d h.1)
