-- ===== src/Common/Lists.antt =====
-- Lists measured by native numbers, and Boolean membership of texts.
use Prim.Native.Nat.{ℕ, zero, suc, ◌+◌, ◌≤◌}
use Prim.Native.String.{String}
use mathlib.Core.Path.{◌≡◌, refl}
use mathlib.Core.Bool.{Bool, true, false, ◌&&◌, ◌||◌}
use mathlib.Core.List.{List, [], ◌∷◌, ◌++◌}
use native.Mathlib.Omega.{arith}
use text.Mathlib.Text.{◌==◌}
use text.Mathlib.TextEquality.{eq_iff}
use mathlib.Core.Logic.{inl, inr}
use refactor_agent.Common.Tests.{if◌then◌else◌, Bool-cases}

module _ {ℓ} {A : Type ℓ} where
  abbrev pub length : List A → ℕ
  length [] = 0
  length (x ∷ xs) = suc (length xs)

  -- `[x for x in xs if p(x)]`
  unfoldable pub select : (A → Bool) → List A → List A
  select p [] = []
  select p (x ∷ xs) = let rest = select p xs in if p x then x ∷ rest else rest

  unfoldable pub any_of : (A → Bool) → List A → Bool
  any_of p [] = false
  any_of p (x ∷ xs) = p x || any_of p xs

  unfoldable pub all_of : (A → Bool) → List A → Bool
  all_of p [] = true
  all_of p (x ∷ xs) = p x && all_of p xs

  abbrev pub take : ℕ → List A → List A
  take zero xs = []
  take (suc n) [] = []
  take (suc n) (x ∷ xs) = x ∷ take n xs

  pub length-append : (xs ys : List A) → length (xs ++ ys) ≡ length xs + length ys
  length-append [] ys = omega arith
  length-append (x ∷ xs) ys = omega (arith, length-append xs ys)

  pub length-select-le : (p : A → Bool) (xs : List A) → length (select p xs) ≤ length xs
  unfolding select
  length-select-le p [] = omega arith
  length-select-le p (x ∷ xs) = ground (arith, length-select-le p xs)

  pub length-take-le : (n : ℕ) (xs : List A) → length (take n xs) ≤ n
  length-take-le zero xs = omega arith
  length-take-le (suc n) [] = omega arith
  length-take-le (suc n) (x ∷ xs) = omega (arith, length-take-le n xs)

-- `k in xs`
unfoldable pub contains : String → List String → Bool
contains k [] = false
contains k (x ∷ xs) = x == k || contains k xs

pub contains-append :
    (k : String) (xs ys : List String) → contains k (xs ++ ys) ≡ (contains k xs || contains k ys)
unfolding contains
contains-append k [] ys = refl
contains-append k (x ∷ xs) ys = ground (arith, contains-append k xs ys)

pub contains-select :
    (p : String → Bool) (k : String) (xs : List String)
    → contains k (select p xs) ≡ (contains k xs && p k)
unfolding contains select
contains-select p k [] = refl
contains-select p k (x ∷ xs) = ground (arith, contains-select p k xs, eq_iff x k)

pub contains-cons_self : (k : String) (ks : List String) → contains k (k ∷ ks) ≡ true
unfolding contains
contains-cons_self k ks = ground (arith, eq_iff k k)

pub contains-cons :
    (j k : String) (ks : List String) → contains k ks ≡ true → contains k (j ∷ ks) ≡ true
unfolding contains
contains-cons j k ks h = ground arith

pub any_of-contains :
    (p : String → Bool) (xs : List String) (x : String)
    → contains x xs ≡ true
    → p x ≡ true
    → any_of p xs ≡ true
unfolding contains any_of
any_of-contains p [] x m h = cc
any_of-contains p (y ∷ ys) x m h = ground (arith, eq_iff y x, any_of-contains p ys x)

pub contains_of_any_of :
    (p : String → Bool) (xs : List String)
    → any_of p xs ≡ true
    → (x : String) × (contains x xs ≡ true) × (p x ≡ true)
unfolding contains any_of
contains_of_any_of p [] h = cc
contains_of_any_of p (y ∷ ys) h = elim (Bool-cases (p y)) [
  | inl e ↦ (y, ground (arith, eq_iff y y), e)
  | inr e ↦ let (x, m, px) = contains_of_any_of p ys (ground arith) in (x, ground arith, px)
]

pub all_of-contains :
    (p : String → Bool) (xs : List String) (x : String)
    → all_of p xs ≡ true
    → contains x xs ≡ true
    → p x ≡ true
unfolding contains all_of
all_of-contains p [] x a m = cc
all_of-contains p (y ∷ ys) x a m = ground (arith, eq_iff y x, all_of-contains p ys x)

-- `set(xs)`, each text once, and `len(set(xs))`.
unfoldable pub distinct : List String → List String
distinct [] = []
distinct (x ∷ xs) = let rest = distinct xs in if contains x xs then rest else x ∷ rest

unfoldable pub set_size : List String → ℕ
unfolding distinct
set_size xs = length (distinct xs)

unfoldable pub text_length : String → ℕ
text_length String.[] = 0
text_length (String.◌∷◌ c s) = suc (text_length s)

-- `text[:n]` and `len(text)`, in code points.
unfoldable pub take_text : ℕ → String → String
take_text zero s = ""
take_text (suc n) String.[] = ""
take_text (suc n) (String.◌∷◌ c s) = String.◌∷◌ c (take_text n s)
