-- ===== src/Statuses/Sizes.antt =====
-- Taking names out of the registry of backend/agent/run_status.py.
use refactor_agent.Common.{
  leb, Bool-cases, length, select, take, contains, contains-select, contains-cons_self,
  contains-cons, distinct, IsDistinct, Subset, IsDistinct-select, ℕ, zero, suc, ◌+◌, ◌≤◌, String,
  ◌≡◌, refl, ap, subst, ◌∙◌, inl, inr, true, false, not, List, [], ◌∷◌, arith, ◌==◌, eq_iff,
}
use refactor_agent.Dict
use refactor_agent.Dict.{Dict}
use refactor_agent.Reviews.{pop_all}
use refactor_agent.Statuses.{StatusRecord, insert_by_age, by_age, names_of}
use refactor_agent.Statuses.Names.{names-size, names-pop}

select-others :
    (k : String) (ks : List String) → contains k ks ≡ false → select (λ j. not (j == k)) ks ≡ ks
unfolding select contains
select-others k [] h = refl
select-others k (j ∷ ks) h = elim (Bool-cases (j == k)) [
  | inl e ↦ absurd (ground (arith, e, h))
  | inr e ↦ rw e (ap (◌∷◌ j) (select-others k ks (ground (arith, h, e))))
]

length-select-others :
    (k : String) (ks : List String)
    → IsDistinct ks
    → contains k ks ≡ true
    → suc (length (select (λ j. not (j == k)) ks)) ≡ length ks
unfolding select contains
length-select-others k [] d h = absurd (ground arith)
length-select-others k (j ∷ ks) d h = elim (Bool-cases (j == k)) [
  | inl e ↦
      let same = (eq_iff j k).0 e in
      let out : contains k ks ≡ false = subst (λ i. contains i ks ≡ false) same d.0 in
      rw e (ap suc (ap length (select-others k ks out)))
  | inr e ↦ rw e (ap suc (length-select-others k ks d.1 (ground (arith, h, e))))
]

length-insert :
    (k : String) (n : ℕ) (xs : List (String × ℕ))
    → length (names_of (insert_by_age k n xs)) ≡ suc (length (names_of xs))
unfolding names_of insert_by_age
length-insert k n [] = refl
length-insert k n ((i, m) ∷ xs) = elim (Bool-cases (leb n m)) [
  | inl e ↦ rw e refl
  | inr e ↦ rw e (ap suc (length-insert k n xs))
]

pub length-by_age : (d : Dict.Dict StatusRecord) → length (names_of (by_age d)) ≡ Dict.size d
unfolding by_age names_of Dict.size
length-by_age [] = refl
length-by_age ((k, r) ∷ d) = length-insert k r.updated_at (by_age d) ∙ ap suc (length-by_age d)

pub length-take : (n : ℕ) (xs : List String) → n ≤ length xs → length (take n xs) ≡ n
length-take zero xs h = refl
length-take (suc n) [] h = absurd (omega arith)
length-take (suc n) (x ∷ xs) h = ap suc (length-take n xs (omega arith))

pub take-Subset : (n : ℕ) (xs : List String) → Subset (take n xs) xs
unfolding contains
take-Subset zero xs k h = absurd (ground arith)
take-Subset (suc n) [] k h = absurd (ground arith)
take-Subset (suc n) (x ∷ xs) k h = ground (arith, take-Subset n xs k, h)

pub take-IsDistinct : (n : ℕ) (xs : List String) → IsDistinct xs → IsDistinct (take n xs)
take-IsDistinct zero xs d = tt
take-IsDistinct (suc n) [] d = tt
take-IsDistinct (suc n) (x ∷ xs) d =
    (ground (arith, take-Subset n xs x, d.0), take-IsDistinct n xs d.1)

pub pop_all-size :
    (ks : List String) (d : Dict.Dict StatusRecord)
    → IsDistinct (names_of d)
    → IsDistinct ks
    → Subset ks (names_of d)
    → (Dict.size (pop_all ks d) + length ks ≡ Dict.size d) × IsDistinct (names_of (pop_all ks d))
unfolding pop_all
pop_all-size [] d u dk s = (omega arith, u)
pop_all-size (k ∷ ks) d u dk s =
    let others = λ (j : String). not (j == k) in
    let less = length-select-others k (names_of d) u (s k (contains-cons_self k ks)) in
    let names = names-pop k d in
    let u' : IsDistinct (names_of (Dict.pop k d)) =
      rw names (IsDistinct-select others (names_of d) u) in
    let s' : Subset ks (names_of (Dict.pop k d)) = λ j m. rw names (
      contains-select others j (names_of d)
      ∙ ground (arith, s j (contains-cons k j ks m), dk.0, m, eq_iff j k)) in
    let (sized, distinct) = pop_all-size ks (Dict.pop k d) u' dk.1 s' in
    let popped = names-size (Dict.pop k d) in
    let whole = names-size d in let shorter = ap length names in (omega arith, distinct)
