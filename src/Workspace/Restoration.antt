-- ===== src/Workspace/Restoration.antt =====
-- Where nobody else changes the tree, a compensation that reports no error restores every file.
use refactor_agent.Common.{
  Bool-cases, Option-cases, String, ◌≡◌, refl, ◌∙◌, ◌⊎◌, inl, inr, false, Option, List, [], ◌∷◌,
  ◌++◌, arith, ◌==◌, eq_iff,
}
use refactor_agent.Dict
use refactor_agent.Workspace.{
  Node, Tree, Files, WorkspaceLibrary, Outcome-cases, reading_state, rename_backup, restore, remove,
}
use refactor_agent.Workspace.Targets.{same_state, Change, inspect_target_state}
use refactor_agent.Workspace.Transaction.{Surroundings, before_rollback}
use refactor_agent.Workspace.Compensation.{
  Rollback, written_state, preserve, add_error, rollback_failed, third_party_change, put_back,
  compensate, rollback_one, rollback,
}
use refactor_agent.Workspace.Commits.{IsQuiet, effect, Undo, kept, absent}

-- The change has another target and another path than each of the others.
abbrev pub Apart : Change → List Change → Type 0
Apart c [] = Unit
Apart c (d ∷ ds) =
    ((c.target == d.target) ≡ false) × ((c.relative == d.relative) ≡ false) × Apart c ds

abbrev pub AllApart : List Change → Type 0
AllApart [] = Unit
AllApart (c ∷ cs) = Apart c cs × AllApart cs

-- What a tree holds at `k` once the changes are made, the last of which stands first.
abbrev pub overlay : Tree → List Change → String → Option Node
overlay base [] k = Dict.get k base
overlay base (c ∷ cs) k = effect k c (overlay base cs k)

abbrev pub AllUndo : Tree → Files → List Change → Type 0
AllUndo base backups [] = Unit
AllUndo base backups (c ∷ cs) = Undo base backups c × AllUndo base backups cs

pub overlay-Apart :
    (base : Tree) (c : Change) (cs : List Change)
    → Apart c cs
    → overlay base cs c.target ≡ Dict.get c.target base
overlay-Apart base c [] a = refl
overlay-Apart base c (d ∷ ds) a =
    ground (arith, overlay-Apart base c ds a.2, eq_iff c.target d.target, eq_iff d.target c.target)

-- A changed backup of one file leaves the others' alone.
pub Undo-mono :
    (base : Tree) (backups backups' : Files) (c : Change)
    → Dict.get c.relative backups' ≡ Dict.get c.relative backups
    → Undo base backups c
    → Undo base backups' c
Undo-mono base backups backups' c same (kept bytes b h) = kept bytes (same ∙ b) h
Undo-mono base backups backups' c same (absent b h) = absent (same ∙ b) h

pub AllUndo-mono :
    (base : Tree) (backups backups' : Files) (c : Change) (cs : List Change)
    → Apart c cs
    → ((k : String) → (c.relative == k) ≡ false → Dict.get k backups' ≡ Dict.get k backups)
    → AllUndo base backups cs
    → AllUndo base backups' cs
AllUndo-mono base backups backups' c [] a h u = tt
AllUndo-mono base backups backups' c (d ∷ ds) a h u = (
  Undo-mono base backups backups' d (h d.relative a.1) u.0,
  AllUndo-mono base backups backups' c ds a.2 h u.1,
)

-- Everything is in place to go back from the applied changes.
pub record CanRestore (base : Tree) (cs : List Change) (tree : Tree) (backups : Files)
    : Type 0 where
  pub tree_at : (k : String) → Dict.get k tree ≡ overlay base cs k
  pub undo : AllUndo base backups cs
  pub apart : AllApart cs

abbrev pub HasErrors : Rollback → Type 0
HasErrors r = (e : String) × (es : List String) × (r.rollback_errors ≡ e ∷ es)

snoc-cons :
    (xs : List String) (x : String) → (e : String) × (es : List String) × (xs ++ x ∷ [] ≡ e ∷ es)
snoc-cons [] x = (x, [], refl)
snoc-cons (y ∷ ys) x = (y, ys ++ x ∷ [], refl)

preserve-errors : (c : Change) (r : Rollback) → (preserve c r).rollback_errors ≡ r.rollback_errors
unfolding preserve
preserve-errors c r = ground arith

module _ (lib : WorkspaceLibrary) (out : Surroundings) where
  pub rollback_failed-HasErrors : (c : Change) (r : Rollback) → HasErrors (rollback_failed c r)
  unfolding rollback_failed add_error
  rollback_failed-HasErrors c r = rw preserve-errors (snoc-cons r.rollback_errors _)

  pub third_party_change-HasErrors :
      (c : Change) (r : Rollback) → HasErrors (third_party_change lib out c r)
  unfolding third_party_change add_error
  third_party_change-HasErrors c r = elim (Option-cases (Dict.get c.relative r.backups)) [
    | inl e ↦ rw (third_party_change, e) (snoc-cons r.rollback_errors _)
    | inr (bytes, e) ↦ elim (Bool-cases (out.fails (rename_backup c.relative))) [
      | inl f ↦ rw (third_party_change, e, f) (rollback_failed-HasErrors c _)
      | inr f ↦ rw (third_party_change, e, f) (rw preserve-errors (snoc-cons r.rollback_errors _))
    ]
  ]

  put_back-CanRestore :
      (base : Tree) (c : Change) (cs : List Change) (r : Rollback)
      → CanRestore base (c ∷ cs) r.tree r.backups
      → HasErrors (put_back lib out c r)
        ⊎ CanRestore base cs (put_back lib out c r).tree (put_back lib out c r).backups
  unfolding put_back
  put_back-CanRestore base c cs r h = elim h.undo.0 [
    | kept bytes b at ↦ elim (Bool-cases (out.fails (restore c.relative))) [
      | inl e ↦ rw (put_back, b, e) (inl (rollback_failed-HasErrors c r))
      | inr e ↦
          rw (put_back, b, e)
            (inr record {
              tree_at = λ k.
                  rw (Dict.get-put, h.tree_at k)
                    (ground (arith, overlay-Apart base c cs h.apart.0, at, eq_iff c.target k));
              undo =
                  AllUndo-mono base r.backups (Dict.pop c.relative r.backups) c cs h.apart.0
                    (λ k ne. rw (Dict.get-pop, ne) refl) h.undo.1;
              apart = h.apart.1;
            })
    ]
    | absent b at ↦ elim (Option-cases (Dict.get c.target r.tree)) [
      | inl e ↦ rw (put_back, b, e) (inl (rollback_failed-HasErrors c r))
      | inr (node, e) ↦ elim (Bool-cases (out.fails (remove c.relative))) [
        | inl f ↦ rw (put_back, b, e, f) (inl (rollback_failed-HasErrors c r))
        | inr f ↦
            rw (put_back, b, e, f)
              (inr record {
                tree_at = λ k.
                    rw (Dict.get-pop, h.tree_at k)
                      (ground (arith, overlay-Apart base c cs h.apart.0, at, eq_iff c.target k));
                undo = h.undo.1;
                apart = h.apart.1;
              })
      ]
    ]
  ]

  compensate-CanRestore :
      (base : Tree) (c : Change) (cs : List Change) (r : Rollback)
      → CanRestore base (c ∷ cs) r.tree r.backups
      → HasErrors (compensate lib out c r)
        ⊎ CanRestore base cs (compensate lib out c r).tree (compensate lib out c r).backups
  unfolding compensate
  compensate-CanRestore base c cs r h =
      elim (Outcome-cases (inspect_target_state lib out.fails reading_state r.tree c.target)) [
        | inl (f, e) ↦ rw (compensate, e) (inl (rollback_failed-HasErrors c r))
        | inr (observed, e) ↦ elim (Bool-cases (same_state observed (written_state lib c.final))) [
          | inl s ↦ rw (compensate, e, s) (put_back-CanRestore base c cs r h)
          | inr s ↦ rw (compensate, e, s) (inl (third_party_change-HasErrors c r))
        ]
      ]

  -- One turn reports an error, or puts the old file back.
  rollback_one-CanRestore :
      (base : Tree) (c : Change) (cs : List Change) (r : Rollback)
      → IsQuiet out
      → CanRestore base (c ∷ cs) r.tree r.backups
      → HasErrors (rollback_one lib out c r)
        ⊎ CanRestore base cs (rollback_one lib out c r).tree (rollback_one lib out c r).backups
  unfolding rollback_one
  rollback_one-CanRestore base c cs r q h =
      elim (Bool-cases (out.hook_raises (before_rollback c.relative) r.tree)) [
        | inl e ↦ rw e (inl (rollback_failed-HasErrors c _))
        | inr e ↦
            rw (e, q (before_rollback c.relative) r.tree) (compensate-CanRestore base c cs r h)
      ]

  -- Errors stay.
  put_back-errors :
      (c : Change) (r : Rollback)
      → HasErrors (put_back lib out c r)
        ⊎ ((put_back lib out c r).rollback_errors ≡ r.rollback_errors)
  unfolding put_back
  put_back-errors c r = elim (Option-cases (Dict.get c.relative r.backups)) [
    | inr (bytes, b) ↦ elim (Bool-cases (out.fails (restore c.relative))) [
      | inl e ↦ rw (put_back, b, e) (inl (rollback_failed-HasErrors c r))
      | inr e ↦ rw (put_back, b, e) (inr refl)
    ]
    | inl b ↦ elim (Option-cases (Dict.get c.target r.tree)) [
      | inl e ↦ rw (put_back, b, e) (inl (rollback_failed-HasErrors c r))
      | inr (node, e) ↦ elim (Bool-cases (out.fails (remove c.relative))) [
        | inl f ↦ rw (put_back, b, e, f) (inl (rollback_failed-HasErrors c r))
        | inr f ↦ rw (put_back, b, e, f) (inr refl)
      ]
    ]
  ]

  compensate-errors :
      (c : Change) (r : Rollback)
      → HasErrors (compensate lib out c r)
        ⊎ ((compensate lib out c r).rollback_errors ≡ r.rollback_errors)
  unfolding compensate
  compensate-errors c r =
      elim (Outcome-cases (inspect_target_state lib out.fails reading_state r.tree c.target)) [
        | inl (f, e) ↦ rw (compensate, e) (inl (rollback_failed-HasErrors c r))
        | inr (observed, e) ↦ elim (Bool-cases (same_state observed (written_state lib c.final))) [
          | inl s ↦ rw (compensate, e, s) (put_back-errors c r)
          | inr s ↦ rw (compensate, e, s) (inl (third_party_change-HasErrors c r))
        ]
      ]

  rollback_one-errors :
      (c : Change) (r : Rollback)
      → HasErrors (rollback_one lib out c r)
        ⊎ ((rollback_one lib out c r).rollback_errors ≡ r.rollback_errors)
  unfolding rollback_one
  rollback_one-errors c r =
      elim (Bool-cases (out.hook_raises (before_rollback c.relative) r.tree)) [
        | inl e ↦ rw e (inl (rollback_failed-HasErrors c _))
        | inr e ↦ rw e (compensate-errors c _)
      ]

  pub rollback-keeps_errors :
      (cs : List Change) (r : Rollback) → HasErrors r → HasErrors (rollback lib out cs r)
  unfolding rollback
  rollback-keeps_errors [] r h = h
  rollback-keeps_errors (c ∷ cs) r (x, xs, h) =
      rollback-keeps_errors cs _
        (elim (rollback_one-errors c r) [ inl e ↦ e | inr same ↦ (x, xs, same ∙ h) ])

  pub rollback-restores :
      (base : Tree) (cs : List Change) (r : Rollback)
      → IsQuiet out
      → CanRestore base cs r.tree r.backups
      → HasErrors (rollback lib out cs r)
        ⊎ ((k : String) → Dict.get k (rollback lib out cs r).tree ≡ Dict.get k base)
  unfolding rollback
  rollback-restores base [] r q h = inr h.tree_at
  rollback-restores base (c ∷ cs) r q h = elim (rollback_one-CanRestore base c cs r q h) [
    | inl e ↦ inl (rollback-keeps_errors cs _ e)
    | inr h' ↦ rollback-restores base cs _ q h'
  ]
