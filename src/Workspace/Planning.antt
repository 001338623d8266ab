-- ===== src/Workspace/Planning.antt =====
-- What the preflight of `_atomic_apply_workspace_locked` guarantees of the changes that it plans:
-- no two have one target, each expects a file or none, and together they install the final files.
use refactor_agent.Common.{
  if◌then◌else◌, Bool-cases, Option-cases, contains, String, ◌≡◌, refl, sym, ap, subst, ◌∙◌, inl,
  inr, Bool, true, false, Option, none, some, List, [], ◌∷◌, arith, ◌==◌, eq_iff, eq_refl,
}
use refactor_agent.Dict
use refactor_agent.Paths.{relative_to}
use refactor_agent.Workspace.{
  Tree, Files, WorkspaceLibrary, Operation, Outcome, returned-injective, returned_through,
  returned_unless, returned,
}
use refactor_agent.Workspace.Targets.{
  expected_baseline_state, Change, normalize_snapshot_path, canonical_relative_path, within_code,
  apply_target,
}
use refactor_agent.Workspace.Apply.{change_of, plan_target, add_identity, plan_changes}
use refactor_agent.Workspace.Preparation.{IsExpectation}
use refactor_agent.Workspace.Restoration.{Apart, AllApart}
use refactor_agent.Workspace.Transacted.{bytes_after, AllExpectations}

expected_baseline_state-IsExpectation :
    (hash : Option String) → IsExpectation (expected_baseline_state hash)
unfolding expected_baseline_state
expected_baseline_state-IsExpectation none = inl refl
expected_baseline_state-IsExpectation (some hash) = inr (hash, refl)

module _ (lib : WorkspaceLibrary) (fails : Operation → Bool) (recorded final_files : Files)
    (source : Tree) where
  abbrev planned_changes : List String → List String → Outcome (List Change)
  planned_changes = plan_changes lib fails recorded final_files source

  -- A change of the plan, the identities `ids` being taken already.
  record Planned (ids : List String) (c : Change) : Type 0 where
    normal : normalize_snapshot_path lib c.relative ≡ returned c.target
    new : contains (lib.casefold c.target) ids ≡ false
    expectation : IsExpectation c.expected
    final : c.final ≡ Dict.get c.relative final_files

  abbrev AllPlanned : List String → List Change → Type 0
  AllPlanned ids [] = Unit
  AllPlanned ids (c ∷ cs) = Planned ids c × AllPlanned ids cs

  within_code-same : (n target : String) → within_code lib n ≡ returned target → n ≡ target
  unfolding within_code
  within_code-same n target h =
      elim (Option-cases (relative_to (lib.abspath "CodeSmells") (lib.abspath n))) [
        | inl e ↦ absurd (ground arith)
        | inr (rest, e) ↦ returned-injective n target (ground arith)
      ]

  apply_target-normal :
      (k target : String)
      → apply_target lib k ≡ returned target
      → normalize_snapshot_path lib k ≡ returned target
  unfolding apply_target
  apply_target-normal k target h =
      let (n, e, h') = returned_through (normalize_snapshot_path lib k) _ target h in
      let (m, _, h'') = returned_through (canonical_relative_path lib n) _ target h' in
      e ∙ ap returned (within_code-same n target (ground arith))

  -- The change that is planned for `k`.
  abbrev PlannedFor : String → Change → Type 0
  PlannedFor k c =
      (c.relative ≡ k)
      × (normalize_snapshot_path lib k ≡ returned c.target)
      × IsExpectation c.expected
      × (c.final ≡ Dict.get k final_files)

  plan_target-PlannedFor :
      (k : String) (c : Change)
      → plan_target lib fails recorded final_files source k ≡ returned c
      → PlannedFor k c
  unfolding plan_target change_of
  plan_target-PlannedFor k c h =
      let (target, e, h2) = returned_through (apply_target lib k) _ c h in
      let (_, same) = returned_unless _ _ c h2 in
      subst (PlannedFor k) same (
        refl,
        apply_target-normal k target e,
        expected_baseline_state-IsExpectation (Dict.get k recorded),
        refl,
      )

  -- The identities with the one of `k`.
  add_identity-lem :
      (ids ids' : List String) (k : String)
      → add_identity lib fails recorded final_files source ids k ≡ returned ids'
      → (n : String) × (normalize_snapshot_path lib k ≡ returned n)
        × (contains (lib.casefold n) ids ≡ false)
        × (lib.casefold n ∷ ids ≡ ids')
  unfolding add_identity
  add_identity-lem ids ids' k h =
      let (n, e, h2) = returned_through (normalize_snapshot_path lib k) _ ids' h in
      elim (Bool-cases (contains (lib.casefold n) ids)) [
        | inl t ↦ absurd (ground arith)
        | inr t ↦ (n, e, t, returned-injective _ ids' (ground arith))
      ]

  AllPlanned-weaken :
      (i : String) (ids : List String) (cs : List Change)
      → AllPlanned (i ∷ ids) cs
      → AllPlanned ids cs
  unfolding contains
  AllPlanned-weaken i ids [] p = tt
  AllPlanned-weaken i ids (c ∷ cs) (p, ps) = (
    record {
      normal = p.normal;
      new = ground (arith, p.new);
      expectation = p.expectation;
      final = p.final;
    },
    AllPlanned-weaken i ids cs ps,
  )

  Planned-of :
      (k n : String) (ids : List String) (c : Change)
      → normalize_snapshot_path lib k ≡ returned n
      → contains (lib.casefold n) ids ≡ false
      → PlannedFor k c
      → Planned ids c × (c.target ≡ n)
  Planned-of k n ids c e new (r, t, x, f) =
      let same : n ≡ c.target = returned-injective n c.target (sym e ∙ t) in
      (
        record {
          normal = ap (normalize_snapshot_path lib) r ∙ t;
          new = ap (λ i. contains (lib.casefold i) ids) (sym same) ∙ new;
          expectation = x;
          final = f ∙ ap (λ i. Dict.get i final_files) (sym r);
        },
        sym same,
      )

  -- The head and the rest of a plan.
  record PlanCons (ids : List String) (k : String) (ks : List String) (cs : List Change)
      : Type 0 where
    head : Change
    rest : List Change
    taken : List String
    rest_planned : planned_changes taken ks ≡ returned rest
    whole : head ∷ rest ≡ cs
    planned : Planned ids head
    same : head.relative ≡ k
    identities : lib.casefold head.target ∷ ids ≡ taken

  plan_changes-PlanCons :
      (ids : List String) (k : String) (ks : List String) (cs : List Change)
      → planned_changes ids (k ∷ ks) ≡ returned cs
      → PlanCons ids k ks cs
  unfolding plan_changes
  plan_changes-PlanCons ids k ks cs h =
      let (taken, i, h2) =
        returned_through (add_identity lib fails recorded final_files source ids k) _ cs h in
      let (c, t, h3) =
        returned_through (plan_target lib fails recorded final_files source k) _ cs h2 in
      let (rest, r, h4) = returned_through (planned_changes taken ks) _ cs h3 in
      let (n, e, new, ids_eq) = add_identity-lem ids taken k i in
      let p = plan_target-PlannedFor k c t in
      let (planned, target) = Planned-of k n ids c e new p in
      record {
        head = c;
        rest = rest;
        taken = taken;
        rest_planned = r;
        whole = returned-injective _ cs h4;
        planned = planned;
        same = p.0;
        identities = ap (λ i. lib.casefold i ∷ ids) target ∙ ids_eq;
      }

  other_path :
      (c : Change) (ids : List String) (d : Change)
      → normalize_snapshot_path lib c.relative ≡ returned c.target
      → Planned (lib.casefold c.target ∷ ids) d
      → (c.relative == d.relative) ≡ false
  unfolding contains
  other_path c ids d e p = elim (Bool-cases (c.relative == d.relative)) [
    | inr ne ↦ ne
    | inl same ↦
        let equal : c.relative ≡ d.relative = (eq_iff c.relative d.relative).0 same in
        let target : c.target ≡ d.target =
          returned-injective c.target d.target
            (sym e ∙ ap (normalize_snapshot_path lib) equal ∙ p.normal) in
        let identity : lib.casefold c.target ≡ lib.casefold d.target = ap lib.casefold target in
        let new = p.new in
        absurd (ground (arith, (eq_iff (lib.casefold c.target) (lib.casefold d.target)).1 identity))
  ]

  -- Another change of the plan has another identity, hence another target and another path.
  Apart-of_AllPlanned :
      (c : Change) (ids : List String) (cs : List Change)
      → normalize_snapshot_path lib c.relative ≡ returned c.target
      → AllPlanned (lib.casefold c.target ∷ ids) cs
      → Apart c cs
  unfolding contains
  Apart-of_AllPlanned c ids [] e p = tt
  Apart-of_AllPlanned c ids (d ∷ ds) e (p, ps) = (
    ground (arith, p.new, eq_iff c.target d.target, eq_refl (lib.casefold c.target)),
    other_path c ids d e p,
    Apart-of_AllPlanned c ids ds e ps,
  )

  AllExpectations-of :
      (ids : List String) (cs : List Change) → AllPlanned ids cs → AllExpectations cs
  AllExpectations-of ids [] p = tt
  AllExpectations-of ids (c ∷ cs) (p, ps) = (p.expectation, AllExpectations-of ids cs ps)

  plan_changes-AllPlanned :
      (ids ks : List String) (cs : List Change)
      → planned_changes ids ks ≡ returned cs
      → AllPlanned ids cs × AllApart cs
  unfolding plan_changes
  plan_changes-AllPlanned ids [] cs h =
      subst (λ cs. AllPlanned ids cs × AllApart cs) (returned-injective [] cs h) (tt, tt)
  plan_changes-AllPlanned ids (k ∷ ks) cs h =
      let p = plan_changes-PlanCons ids k ks cs h in
      let (ps, a) = plan_changes-AllPlanned p.taken ks p.rest p.rest_planned in
      let ps' = subst (λ i. AllPlanned i p.rest) (sym p.identities) ps in
      subst (λ cs. AllPlanned ids cs × AllApart cs) p.whole
        (
          (p.planned, AllPlanned-weaken _ ids p.rest ps'),
          (Apart-of_AllPlanned p.head ids p.rest p.planned.normal ps', a),
        )

  -- A plan whose changes can be made and taken back.
  pub plan_changes-apart :
      (ks : List String) (cs : List Change)
      → planned_changes [] ks ≡ returned cs
      → AllApart cs × AllExpectations cs
  plan_changes-apart ks cs h =
      let (ps, a) = plan_changes-AllPlanned [] ks cs h in (a, AllExpectations-of [] cs ps)

  -- Every path of the list is in the form that `_normalize_snapshot_path` gives.
  abbrev pub AllCanonical : List String → Type 0
  AllCanonical ks = (k : String) → contains k ks ≡ true → normalize_snapshot_path lib k ≡ returned k

  head-target :
      {ids : List String} {k : String} {ks : List String} {cs : List Change}
      → (p : PlanCons ids k ks cs) → normalize_snapshot_path lib k ≡ returned k
      → p.head.target ≡ k
  head-target {k = k} p e =
      returned-injective p.head.target k
        (sym p.planned.normal ∙ ap (normalize_snapshot_path lib) p.same ∙ e)

  -- One after the other, the changes of a plan install the final files of its paths.
  pub bytes_after_plan :
      (ids ks : List String) (cs : List Change)
      → AllCanonical ks
      → planned_changes ids ks ≡ returned cs
      → (j : String) (old : Option String)
      → bytes_after j cs old ≡ (if contains j ks then Dict.get j final_files else old)
  unfolding contains
  bytes_after_plan ids [] cs x h j old =
      subst (λ cs. bytes_after j cs old ≡ old) (returned-injective [] cs (unfold plan_changes in h))
        refl
  bytes_after_plan ids (k ∷ ks) cs x h j old =
      let p = plan_changes-PlanCons ids k ks cs h in
      let target = head-target p (x k (ground (arith, eq_refl k))) in
      let ih = bytes_after_plan p.taken ks p.rest (λ i m. x i (ground arith)) p.rest_planned in
      subst
        (λ cs. bytes_after j cs old ≡ (if contains j (k ∷ ks) then Dict.get j final_files else old))
        p.whole (ih j _ ∙ ground (arith, target, p.planned.final, p.same, eq_iff k j))
