-- ===== src/Workspace/Loops.antt =====
-- The commit loop, where nobody else changes the tree: it makes all changes, or stops where every
-- change that it has made can be taken back.
use refactor_agent.Common.{
  String, ◌≡◌, refl, sym, ap, subst, ◌∙◌, inl, inr, false, Option, none, some, List, [], ◌∷◌, arith,
  ◌==◌, eq_iff,
}
use refactor_agent.Dict
use refactor_agent.Workspace.{
  Node, Tree, Files, WorkspaceLibrary, ConflictPhase, Failure, before_replacing,
}
use refactor_agent.Workspace.Targets.{
  same_state, Change, inspect_target_state, assert_target_matches_baseline, missing,
}
use refactor_agent.Workspace.Transaction.{
  Surroundings, Transaction, Step, and_then, commit_one, commit,
}
use refactor_agent.Workspace.Commits.{
  IsQuiet, effect, Undo, Replaced, and_then_elim, Committed, commit_one-Committed, kept, absent,
  unmade, made,
}
use refactor_agent.Workspace.Restoration.{Apart, AllApart, overlay-Apart, AllUndo-mono, CanRestore}
use refactor_agent.Workspace.Preparation.{Waiting, AllWaiting}

-- What the changes, one after the other, make of what stood at `k`.
abbrev pub after : String → List Change → Option Node → Option Node
after k [] old = old
after k (c ∷ cs) old = after k cs (effect k c old)

-- Each of the second changes is apart from all of the first.
abbrev pub Separate : List Change → List Change → Type 0
Separate done [] = Unit
Separate done (c ∷ cs) = Apart c done × Separate done cs

pub Separate-nil : (cs : List Change) → Separate [] cs
Separate-nil [] = tt
Separate-nil (c ∷ cs) = (tt, Separate-nil cs)

Separate-push :
    (c : Change) (done cs : List Change) → Apart c cs → Separate done cs → Separate (c ∷ done) cs
Separate-push c done [] a s = tt
Separate-push c done (d ∷ ds) a s = (
  (
    ground (arith, a.0, eq_iff c.target d.target, eq_iff d.target c.target),
    ground (arith, a.1, eq_iff c.relative d.relative, eq_iff d.relative c.relative),
    s.0,
  ),
  Separate-push c done ds a.2 s.1,
)

AllWaiting-mono :
    (base : Tree) (prepared prepared' backups backups' : Files) (c : Change) (cs : List Change)
    → Apart c cs
    → ((k : String) → (c.relative == k) ≡ false → Dict.get k prepared' ≡ Dict.get k prepared)
    → ((k : String) → (c.relative == k) ≡ false → Dict.get k backups' ≡ Dict.get k backups)
    → AllWaiting base prepared backups cs
    → AllWaiting base prepared' backups' cs
AllWaiting-mono base p p' b b' c [] a hp hb w = tt
AllWaiting-mono base p p' b b' c (d ∷ ds) a hp hb (w, ws) = (
  record {
    final_saved = hp d.relative a.1 ∙ w.final_saved;
    old_saved = elim w.old_saved [
      | inl (bytes, e, at) ↦ inl (bytes, hb d.relative a.1 ∙ e, at)
      | inr (e, m) ↦ inr (hb d.relative a.1 ∙ e, m)
    ];
  },
  AllWaiting-mono base p p' b b' c ds a.2 hp hb ws,
)

Undo-at :
    (tree base : Tree) (backups : Files) (c : Change)
    → Dict.get c.target tree ≡ Dict.get c.target base
    → Undo tree backups c
    → Undo base backups c
Undo-at tree base backups c e (kept bytes b at) = kept bytes b (sym e ∙ at)
Undo-at tree base backups c e (absent b at) = absent b (sym e ∙ at)

-- The loop, between two changes.
pub record Going (base : Tree) (t : Transaction) (cs : List Change) : Type 0 where
  pub can_restore : CanRestore base t.applied t.tree t.backups
  pub separate : Separate t.applied cs
  pub waiting : AllWaiting base t.prepared t.backups cs
  pub distinct_left : AllApart cs

module _ (lib : WorkspaceLibrary) (out : Surroundings) where
  -- Where no file was expected, there was none.
  matched-missing :
      (phase : ConflictPhase) (tree : Tree) (c : Change)
      → assert_target_matches_baseline lib out.fails phase tree c ≡ none
      → c.expected ≡ missing
      → Dict.get c.target tree ≡ none
  unfolding assert_target_matches_baseline inspect_target_state same_state
  matched-missing phase tree c h e = ground arith

  Undo-of_Waiting :
      (base : Tree) (t : Transaction) (c : Change) (t' : Transaction)
      → CanRestore base t.applied t.tree t.backups
      → Apart c t.applied
      → Waiting base t.prepared t.backups c
      → assert_target_matches_baseline lib out.fails before_replacing t.tree c ≡ none
      → Replaced c t t'
      → Undo base t'.backups c
  Undo-of_Waiting base t c t' h a w m d =
      let at : Dict.get c.target t.tree ≡ Dict.get c.target base =
        h.tree_at c.target ∙ overlay-Apart base c t.applied a in
      Undo-at t.tree base t'.backups c at (
        d.undo (elim w.old_saved [
          | inl (bytes, e, f) ↦ kept bytes e (at ∙ f)
          | inr (e, f) ↦ absent e (matched-missing before_replacing t.tree c m f)
        ]))

  Going-step :
      (base : Tree) (t : Transaction) (c : Change) (cs : List Change) (t' : Transaction)
      → Going base t (c ∷ cs)
      → assert_target_matches_baseline lib out.fails before_replacing t.tree c ≡ none
      → Replaced c t t'
      → Going base t' cs
  Going-step base t c cs t' g m d =
      let h = g.can_restore in
      record {
        can_restore =
            subst (λ done. CanRestore base done t'.tree t'.backups) (sym d.applied)
              record {
                tree_at = λ k. d.tree k ∙ ap (effect k c) (h.tree_at k);
                undo = (
                  Undo-of_Waiting base t c t' h g.separate.0 g.waiting.0 m d,
                  AllUndo-mono base t.backups t'.backups c t.applied g.separate.0 d.backups h.undo,
                );
                apart = (g.separate.0, h.apart);
              };
        separate =
            subst (λ done. Separate done cs) (sym d.applied)
              (Separate-push c t.applied cs g.distinct_left.0 g.separate.1);
        waiting =
            AllWaiting-mono base t.prepared t'.prepared t.backups t'.backups c cs g.distinct_left.0
              d.prepared d.backups g.waiting.1;
        distinct_left = g.distinct_left.1;
      }

  pub data Committing (base : Tree) (cs : List Change) (t : Transaction) (r : Step) : Type 0 where
    halted :
        (f : Failure)
        → r.1 ≡ some f
        → CanRestore base r.0.applied r.0.tree r.0.backups
        → Committing base cs t r
    finished :
        r.1 ≡ none
        → ((k : String) → Dict.get k r.0.tree ≡ after k cs (Dict.get k t.tree))
        → Committing base cs t r

  -- One change, then the others.
  commit-cons :
      (base : Tree) (c : Change) (cs : List Change) (t : Transaction) (s : Step)
      → Going base t (c ∷ cs)
      → Committed lib out c t s
      → (Going base s.0 cs → Committing base cs s.0 (commit lib out cs s.0))
      → Committing base (c ∷ cs) t (and_then s (commit lib out cs))
  commit-cons base c cs t s g (unmade f same err) next =
      and_then_elim (Committing base (c ∷ cs) t) s _
        (λ x e. halted x e (
          subst (λ (u : Transaction). CanRestore base u.applied u.tree u.backups) (sym same)
            g.can_restore))
        λ e. absurd (ground arith)
  commit-cons base c cs t s g (made d m) next =
      let g' = Going-step base t c cs s.0 g m d in
      and_then_elim (Committing base (c ∷ cs) t) s _ (λ x e. halted x e g'.can_restore)
        λ e. elim (next g') [
          | halted f x h ↦ halted f x h
          | finished n h ↦ finished n λ k. h k ∙ ap (after k cs) (d.tree k)
        ]

  pub commit-Committing :
      (base : Tree) (cs : List Change) (t : Transaction)
      → IsQuiet out
      → Going base t cs
      → Committing base cs t (commit lib out cs t)
  unfolding commit
  commit-Committing base [] t q g = finished refl λ k. refl
  commit-Committing base (c ∷ cs) t q g =
      commit-cons base c cs t (commit_one lib out c t) g
        (commit_one-Committed lib out c t q g.waiting.0.final_saved) (commit-Committing base cs _ q)
