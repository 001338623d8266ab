-- ===== src/Plans/Start.antt =====
-- The start of `_assert_acyclic` of backend/agent/plans.py: degrees and the ready tasks.
use refactor_agent.Common.{
  if◌then◌else◌, Bool-cases, Option-cases, ℤ, is_zero, pos, length, contains, IsDistinct, String,
  ◌≡◌, refl, sym, ap, ◌∙◌, inl, inr, Bool, true, false, ◌||◌, Option, none, some, List, [], ◌∷◌,
  arith, eq_iff, eq_refl,
}
use refactor_agent.Dict
use refactor_agent.Dict.{Dict, get-put, put-IsUnique}
use refactor_agent.Plans.{RefactorTask, task_ids, Among, degrees, no_dependents, zero_degree}
use refactor_agent.Plans.Ordering.{HasUniqueIds}
use refactor_agent.Plans.Kahn.{HasKey}
use refactor_agent.Plans.Acyclic.{IsLinked, open_count-start, Inv}

get-degrees_other :
    (ts : List RefactorTask) (d : Dict.Dict ℤ) (k : String)
    → contains k (task_ids ts) ≡ false
    → Dict.get k (degrees ts d) ≡ Dict.get k d
unfolding degrees contains task_ids
get-degrees_other [] d k h = refl
get-degrees_other (t ∷ ts) d k h = ground (
  arith,
  get-degrees_other ts (Dict.put t.id (pos (length t.dependencies)) d) k,
  get-put t.id k (pos (length t.dependencies)) d,
)

get-degrees :
    (ts : List RefactorTask) (d : Dict.Dict ℤ) (t : RefactorTask)
    → HasUniqueIds ts
    → Among t ts
    → Dict.get t.id (degrees ts d) ≡ some (pos (length t.dependencies))
unfolding degrees task_ids
get-degrees [] d t u m = absurd m
get-degrees (w ∷ ws) d t u (inl e) = rw e (
    get-degrees_other ws _ w.id u.0
    ∙ get-put w.id w.id (pos (length w.dependencies)) d
    ∙ rw (eq_refl w.id))
get-degrees (w ∷ ws) d t u (inr m) = get-degrees ws _ t u.1 m

degrees-IsUnique :
    (ts : List RefactorTask) (d : Dict.Dict ℤ) → Dict.IsUnique d → Dict.IsUnique (degrees ts d)
unfolding degrees
degrees-IsUnique [] d u = u
degrees-IsUnique (t ∷ ts) d u = degrees-IsUnique ts _ (put-IsUnique t.id _ d u)

-- Only the ids of the plan have a degree.
degrees-known :
    (ts : List RefactorTask) (k : String)
    → HasKey k (degrees ts [])
    → contains k (task_ids ts) ≡ true
degrees-known ts k (n, e) = elim (Bool-cases (contains k (task_ids ts))) [
  | inl h ↦ h
  | inr h ↦ let f = get-degrees_other ts [] k h in absurd (unfold Dict.get in ground arith)
]

abbrev zero_at : Option ℤ → Bool
zero_at none = false
zero_at (some n) = is_zero n

contains-zero_degree :
    (d : Dict.Dict ℤ) (acc : List String) (k : String)
    → Dict.IsUnique d
    → contains k (zero_degree d acc) ≡ (contains k acc || zero_at (Dict.get k d))
unfolding zero_degree contains Dict.get
contains-zero_degree [] acc k u = ground arith
contains-zero_degree ((j, n) ∷ d) acc k u = ground (
  arith,
  contains-zero_degree d (j ∷ acc) k u.1,
  contains-zero_degree d acc k u.1,
  eq_iff j k,
  u.0,
)

zero_degree-IsDistinct :
    (d : Dict.Dict ℤ) (acc : List String)
    → Dict.IsUnique d
    → IsDistinct acc
    → ((k : String) → contains k acc ≡ true → Dict.get k d ≡ none)
    → IsDistinct (zero_degree d acc)
unfolding zero_degree contains Dict.get
zero_degree-IsDistinct [] acc u a out = a
zero_degree-IsDistinct ((j, n) ∷ d) acc u a out = elim (Bool-cases (is_zero n)) [
  | inl e ↦ rw e (
      zero_degree-IsDistinct d (j ∷ acc) u.1 (fresh, a)
        λ k h. ground (arith, out k, eq_iff j k, u.0))
  | inr e ↦ rw e (zero_degree-IsDistinct d acc u.1 a λ k h. ground (arith, out k))
]
  where
    fresh : contains j acc ≡ false
    fresh = elim (Bool-cases (contains j acc)) [
      | inr e ↦ e
      | inl e ↦ let o = out j e in absurd (ground (arith, eq_iff j j))
    ]

pub get-no_dependents :
    (ts : List RefactorTask) (d : Dict.Dict (List String)) (k : String)
    → Dict.get k (no_dependents ts d) ≡ (if contains k (task_ids ts) then some [] else Dict.get k d)
unfolding no_dependents contains task_ids
get-no_dependents [] d k = refl
get-no_dependents (t ∷ ts) d k =
    ground (arith, get-no_dependents ts (Dict.put t.id [] d) k, get-put t.id k [] d)

module _ (tasks : List RefactorTask) (l : IsLinked tasks) where
  pub start-Inv : Inv tasks [] (zero_degree (degrees tasks []) []) (degrees tasks [])
  unfolding contains
  start-Inv = record {
    done_once = tt;
    ready_once =
        zero_degree-IsDistinct (degrees tasks []) [] (degrees-IsUnique tasks [] tt) tt (λ k h. cc);
    apart = λ k h. refl;
    done_known = λ k h. cc;
    ready_known = λ k h. degrees-known tasks k (has k h);
    degrees_open = λ t m.
        get-degrees tasks [] t l.unique m
        ∙ ap (λ n. some (pos n)) (sym (open_count-start t.dependencies));
    free = λ t m. ground (
      arith,
      contains-zero_degree (degrees tasks []) [] t.id (degrees-IsUnique tasks [] tt),
      get-degrees tasks [] t l.unique m,
      open_count-start t.dependencies,
    );
    ordered = tt;
  }
    where
      has :
          (k : String)
          → contains k (zero_degree (degrees tasks []) []) ≡ true
          → HasKey k (degrees tasks [])
      has k h = elim (Option-cases (Dict.get k (degrees tasks []))) [
        | inr found ↦ found
        | inl e ↦
            let z = contains-zero_degree (degrees tasks []) [] k (degrees-IsUnique tasks [] tt) in
            absurd (ground arith)
      ]
