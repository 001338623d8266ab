-- ===== src/Workspace/Differences.antt =====
-- The keys under which two sets of files differ: exactly those, and none where the sets are equal.
use refactor_agent.Common.{
  Option-cases, contains, contains-append, contains-select, distinct, sorted, contains-sorted,
  String, ◌≡◌, refl, inl, inr, true, false, not, some, List, [], ◌∷◌, ◌++◌, arith, eq_iff,
}
use refactor_agent.Dict
use refactor_agent.Dict.{Dict}
use refactor_agent.Workspace.{Files, same_text, same_text_sound, keys, differing, same_dict}

contains-keys :
    (k : String) (d : Files) (v : String) → Dict.get k d ≡ some v → contains k (keys d) ≡ true
unfolding contains keys Dict.get
contains-keys k [] v h = cc
contains-keys k ((j, w) ∷ d) v h = ground (arith, contains-keys k d v)

contains-distinct : (k : String) (xs : List String) → contains k (distinct xs) ≡ contains k xs
unfolding contains distinct
contains-distinct k [] = refl
contains-distinct k (x ∷ xs) = ground (arith, contains-distinct k xs, eq_iff x k)

differs-listed :
    (k : String) (d e : Files)
    → same_text (Dict.get k d) (Dict.get k e) ≡ false
    → contains k (keys d ++ keys e) ≡ true
unfolding same_text
differs-listed k d e h = elim (Option-cases (Dict.get k d)) [
  | inr (v, f) ↦ rw contains-append (ground (arith, contains-keys k d v))
  | inl f ↦ elim (Option-cases (Dict.get k e)) [
    | inr (v, g) ↦ rw contains-append (ground (arith, contains-keys k e v))
    | inl g ↦ absurd (ground arith)
  ]
]

pub contains-differing :
    (k : String) (d e : Files)
    → contains k (differing d e) ≡ not (same_text (Dict.get k d) (Dict.get k e))
unfolding differing
contains-differing k d e = ground (
  arith,
  contains-select (λ k. not (same_text (Dict.get k d) (Dict.get k e))) k
      (sorted (distinct (keys d ++ keys e))),
  contains-sorted k (distinct (keys d ++ keys e)),
  contains-distinct k (keys d ++ keys e),
  differs-listed k d e,
)

empty-contains :
    (k : String) (xs : List String)
    → elim xs [ [] ↦ true | x ∷ ys ↦ false ] ≡ true
    → contains k xs ≡ false
unfolding contains
empty-contains k [] h = refl
empty-contains k (x ∷ xs) h = cc

pub same_dict-pointwise :
    (d e : Files) → same_dict d e ≡ true → (k : String) → Dict.get k d ≡ Dict.get k e
unfolding same_dict
same_dict-pointwise d e h k =
    let none_differs = empty-contains k (differing d e) h in
    same_text_sound (Dict.get k d) (Dict.get k e) (ground (arith, contains-differing k d e))
