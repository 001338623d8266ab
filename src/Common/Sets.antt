-- ===== src/Common/Sets.antt =====
-- Lists of texts without repetition: sizes and the pigeonhole.
use Prim.Native.Nat.{suc, ◌≤◌}
use Prim.Native.String.{String}
use mathlib.Core.Path.{◌≡◌, refl, ap}
use mathlib.Core.Bool.{Bool, true, false}
use mathlib.Core.List.{List, [], ◌∷◌, ◌++◌}
use mathlib.Core.Logic.{inl, inr}
use native.Mathlib.Omega.{arith}
use text.Mathlib.Text.{◌==◌}
use text.Mathlib.TextEquality.{eq_iff}
use refactor_agent.Common.Tests.{if◌then◌else◌, Bool-cases}
use refactor_agent.Common.Lists.{
  length, select, contains, contains-append, contains-select, contains-cons_self, contains-cons,
  distinct, set_size,
}

-- No text stands twice.
abbrev pub IsDistinct : List String → Type 0
IsDistinct [] = Unit
IsDistinct (x ∷ xs) = (contains x xs ≡ false) × IsDistinct xs

-- Every text of the first list stands in the second.
abbrev pub Subset : List String → List String → Type 0
Subset xs ys = (k : String) → contains k xs ≡ true → contains k ys ≡ true

remove_one : String → List String → List String
remove_one x [] = []
remove_one x (y ∷ ys) = if y == x then ys else y ∷ remove_one x ys

length-remove_one :
    (x : String) (ys : List String)
    → contains x ys ≡ true
    → length ys ≡ suc (length (remove_one x ys))
unfolding contains remove_one
length-remove_one x [] h = cc
length-remove_one x (y ∷ ys) h = ground (arith, length-remove_one x ys)

contains-remove_one :
    (x k : String) (ys : List String)
    → contains k ys ≡ true
    → (x == k) ≡ false
    → contains k (remove_one x ys) ≡ true
unfolding contains remove_one
contains-remove_one x k [] h ne = h
contains-remove_one x k (y ∷ ys) h ne =
    ground (arith, eq_iff y x, eq_iff y k, eq_iff x k, contains-remove_one x k ys)

pub length-Subset : (xs ys : List String) → IsDistinct xs → Subset xs ys → length xs ≤ length ys
length-Subset [] ys d s = omega arith
length-Subset (x ∷ xs) ys d s = omega (
  arith,
  length-Subset xs (remove_one x ys) d.1 rest,
  length-remove_one x ys (s x (contains-cons_self x xs)),
)
  where
    rest : Subset xs (remove_one x ys)
    rest k m = elim (Bool-cases (x == k)) [
      | inl e ↦ let gone = d.0 in let same = (eq_iff x k).0 e in ground arith
      | inr ne ↦ contains-remove_one x k ys (s k (contains-cons x k xs m)) ne
    ]

-- The pigeonhole: a subset without repetition that is as long as the whole holds all of it.
pub Subset-covers :
    (xs ys : List String) → IsDistinct xs → Subset xs ys → length ys ≤ length xs → Subset ys xs
Subset-covers xs ys d s h k m = elim (Bool-cases (contains k xs)) [
  | inl e ↦ e
  | inr e ↦ absurd (omega (arith, length-Subset (k ∷ xs) ys (e, d) longer))
]
  where
    longer : Subset (k ∷ xs) ys
    longer j i = elim (Bool-cases (k == j)) [
      | inl e ↦ rw (← (eq_iff k j).0 e) m
      | inr ne ↦ s j (unfold contains in ground arith)
    ]

distinct_of_IsDistinct : (xs : List String) → IsDistinct xs → distinct xs ≡ xs
unfolding distinct
distinct_of_IsDistinct [] d = refl
distinct_of_IsDistinct (x ∷ xs) d = rw d.0 (ap (◌∷◌ x) (distinct_of_IsDistinct xs d.1))

pub set_size_of_IsDistinct : (xs : List String) → IsDistinct xs → set_size xs ≡ length xs
unfolding set_size
set_size_of_IsDistinct xs d = ap length (distinct_of_IsDistinct xs d)

pub IsDistinct-snoc :
    (xs : List String) (x : String)
    → IsDistinct xs
    → contains x xs ≡ false
    → IsDistinct (xs ++ x ∷ [])
unfolding contains
IsDistinct-snoc [] x d h = (refl, tt)
IsDistinct-snoc (y ∷ ys) x d h = (
  ground (arith, contains-append y ys (x ∷ []), eq_iff x y, eq_iff y x),
  IsDistinct-snoc ys x d.1 (ground arith),
)

pub IsDistinct-select :
    (p : String → Bool) (xs : List String) → IsDistinct xs → IsDistinct (select p xs)
unfolding select
IsDistinct-select p [] d = tt
IsDistinct-select p (x ∷ xs) d = elim (Bool-cases (p x)) [
  | inl e ↦ rw e (ground (arith, contains-select p x xs), IsDistinct-select p xs d.1)
  | inr e ↦ rw e (IsDistinct-select p xs d.1)
]
