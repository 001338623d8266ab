-- ===== src/Workspace/Foreign.antt =====
-- What the compensation never does: write over what somebody else has written since.
use refactor_agent.Common.{
  Bool-cases, Option-cases, String, ◌≡◌, refl, sym, ap, subst, ◌∙◌, ◌⊎◌, inl, inr, true, false,
  Option, none, some, List, [], ◌∷◌, arith, ◌==◌, eq_iff,
}
use refactor_agent.Dict
use refactor_agent.Workspace.{
  Node, Tree, WorkspaceLibrary, ConflictPhase, Failure, Outcome-cases, returned-injective, regular,
  directory, special, link, reading_state, read_state, rename_backup, restore, remove, returned,
}
use refactor_agent.Workspace.Targets.{
  TargetState, same_state, Change, has_reparse_component, read_found, inspect_target_state, missing,
  file, is_directory, is_special,
}
use refactor_agent.Workspace.Transaction.{Moment, Surroundings, Transaction, before_rollback}
use refactor_agent.Workspace.Compensation.{
  Rollback, written_state, preserve, add_error, rollback_failed, third_party_change, put_back,
  compensate, rollback_one, rollback, start_rollback, error_of, partial,
}
use refactor_agent.Workspace.Restoration.{
  HasErrors, rollback_failed-HasErrors, third_party_change-HasErrors, rollback-keeps_errors,
}
use refactor_agent.Workspace.Transacted.{error_of-partial}

module _ (lib : WorkspaceLibrary) (out : Surroundings) where
  -- What `_inspect_target_state` sees of what stands at a path.
  abbrev observed : Option Node → TargetState
  observed none = missing
  observed (some (regular bytes)) = file (lib.sha256 bytes)
  observed (some directory) = is_directory
  observed (some _) = is_special

  -- What stands at a path is not what the change wrote there.
  abbrev pub IsForeign : Change → Option Node → Type 0
  IsForeign c n = same_state (observed n) (written_state lib c.final) ≡ false

  read_found-observed :
      (phase : ConflictPhase) (target : String) (n : Option Node) (s : TargetState)
      → read_found lib out.fails phase target n ≡ returned s
      → s ≡ observed n
  unfolding read_found
  read_found-observed phase target none s h = sym (returned-injective missing s h)
  read_found-observed phase target (some directory) s h = sym (returned-injective is_directory s h)
  read_found-observed phase target (some (regular bytes)) s h =
      elim (Bool-cases (out.fails (read_state phase target))) [
        | inl e ↦ absurd (ground arith)
        | inr e ↦ sym (returned-injective (file (lib.sha256 bytes)) s (ground arith))
      ]
  read_found-observed phase target (some special) s h = sym (returned-injective is_special s h)
  read_found-observed phase target (some link) s h = sym (returned-injective is_special s h)

  inspect-observed :
      (phase : ConflictPhase) (tree : Tree) (target : String) (s : TargetState)
      → inspect_target_state lib out.fails phase tree target ≡ returned s
      → s ≡ observed (Dict.get target tree)
  unfolding inspect_target_state
  inspect-observed phase tree target s h =
      elim (Bool-cases (has_reparse_component lib tree target)) [
        | inl e ↦ absurd (ground arith)
        | inr e ↦ read_found-observed phase target (Dict.get target tree) s (ground arith)
      ]

  preserve-tree : (c : Change) (r : Rollback) → (preserve c r).tree ≡ r.tree
  unfolding preserve
  preserve-tree c r = ground arith

  third_party_change-tree :
      (c : Change) (r : Rollback) → (third_party_change lib out c r).tree ≡ r.tree
  unfolding third_party_change rollback_failed add_error
  third_party_change-tree c r = elim (Option-cases (Dict.get c.relative r.backups)) [
    | inl e ↦ rw (third_party_change, e) refl
    | inr (bytes, e) ↦ elim (Bool-cases (out.fails (rename_backup c.relative))) [
      | inl f ↦ rw (third_party_change, e, f) (preserve-tree c _)
      | inr f ↦ rw (third_party_change, e, f) (preserve-tree c _)
    ]
  ]

  compensate-foreign :
      (c : Change) (r : Rollback)
      → IsForeign c (Dict.get c.target r.tree)
      → ((compensate lib out c r).tree ≡ r.tree) × HasErrors (compensate lib out c r)
  unfolding compensate
  compensate-foreign c r x =
      elim (Outcome-cases (inspect_target_state lib out.fails reading_state r.tree c.target)) [
        | inl (f, e) ↦ rw (compensate, e) (preserve-tree c _, rollback_failed-HasErrors lib out c r)
        | inr (s, e) ↦
            let same = inspect-observed reading_state r.tree c.target s e in
            rw (compensate, e, same, x)
              (third_party_change-tree c r, third_party_change-HasErrors lib out c r)
      ]

  failed-tree : (c : Change) (r : Rollback) → (rollback_failed c r).tree ≡ r.tree
  unfolding rollback_failed add_error
  failed-tree c r = preserve-tree c _

  -- A turn for another path leaves this one alone.
  put_back-elsewhere :
      (c : Change) (r : Rollback) (k : String)
      → (c.target == k) ≡ false
      → Dict.get k (put_back lib out c r).tree ≡ Dict.get k r.tree
  unfolding put_back
  put_back-elsewhere c r k ne = elim (Option-cases (Dict.get c.relative r.backups)) [
    | inr (bytes, b) ↦ elim (Bool-cases (out.fails (restore c.relative))) [
      | inl e ↦ rw (put_back, b, e) (ap (Dict.get k) (failed-tree c r))
      | inr e ↦ rw (put_back, b, e) (rw (Dict.get-put, ne) refl)
    ]
    | inl b ↦ elim (Option-cases (Dict.get c.target r.tree)) [
      | inl e ↦ rw (put_back, b, e) (ap (Dict.get k) (failed-tree c r))
      | inr (node, e) ↦ elim (Bool-cases (out.fails (remove c.relative))) [
        | inl f ↦ rw (put_back, b, e, f) (ap (Dict.get k) (failed-tree c r))
        | inr f ↦ rw (put_back, b, e, f) (rw (Dict.get-pop, ne) refl)
      ]
    ]
  ]

  compensate-elsewhere :
      (c : Change) (r : Rollback) (k : String)
      → (c.target == k) ≡ false
      → Dict.get k (compensate lib out c r).tree ≡ Dict.get k r.tree
  unfolding compensate
  compensate-elsewhere c r k ne =
      elim (Outcome-cases (inspect_target_state lib out.fails reading_state r.tree c.target)) [
        | inl (f, e) ↦ rw (compensate, e) (ap (Dict.get k) (failed-tree c r))
        | inr (s, e) ↦ elim (Bool-cases (same_state s (written_state lib c.final))) [
          | inl x ↦ rw (compensate, e, x) (put_back-elsewhere c r k ne)
          | inr x ↦ rw (compensate, e, x) (ap (Dict.get k) (third_party_change-tree c r))
        ]
      ]

  -- Nobody touches the path `k` while the hooks run.
  abbrev pub LeavesAlone : String → Type 0
  LeavesAlone k = (m : Moment) (tree : Tree) → Dict.get k (out.hook m tree) ≡ Dict.get k tree

  -- No change of `k` among these wrote what stands there.
  abbrev pub AllForeign : String → Option Node → List Change → Type 0
  AllForeign k n [] = Unit
  AllForeign k n (c ∷ cs) = ((c.target == k) ≡ true → IsForeign c n) × AllForeign k n cs

  -- Some change of these is one of `k`.
  abbrev pub Touches : String → List Change → Type 0
  Touches k [] = ⊥
  Touches k (c ∷ cs) = ((c.target == k) ≡ true) ⊎ Touches k cs

  rollback_one-foreign :
      (c : Change) (r : Rollback) (k : String) (n : Option Node)
      → LeavesAlone k
      → Dict.get k r.tree ≡ n
      → ((c.target == k) ≡ true → IsForeign c n)
      → (Dict.get k (rollback_one lib out c r).tree ≡ n)
        × ((c.target == k) ≡ true → HasErrors (rollback_one lib out c r))
  unfolding rollback_one
  rollback_one-foreign c r k n alone at x =
      let after : Dict.get k (out.hook (before_rollback c.relative) r.tree) ≡ n =
        alone (before_rollback c.relative) r.tree ∙ at in
      elim (Bool-cases (out.hook_raises (before_rollback c.relative) r.tree)) [
        | inl e ↦
            rw e (
              ap (Dict.get k) (failed-tree c _) ∙ after,
              λ t. rollback_failed-HasErrors lib out c _,
            )
        | inr e ↦ rw e (elim (Bool-cases (c.target == k)) [
          | inr ne ↦ (compensate-elsewhere c _ k ne ∙ after, λ t. absurd (ground arith))
          | inl t ↦
              let target = (eq_iff c.target k).0 t in
              let (same, errors) =
                compensate-foreign c
                  (record r { tree = out.hook (before_rollback c.relative) r.tree })
                  (subst (IsForeign c)
                    (sym (
                      ap (λ j. Dict.get j (out.hook (before_rollback c.relative) r.tree)) target
                      ∙ after))
                    (x t)) in
              (ap (Dict.get k) same ∙ after, λ _. errors)
        ])
      ]

  rollback-foreign :
      (cs : List Change) (r : Rollback) (k : String) (n : Option Node)
      → LeavesAlone k
      → Dict.get k r.tree ≡ n
      → AllForeign k n cs
      → (Dict.get k (rollback lib out cs r).tree ≡ n)
        × (Touches k cs → HasErrors (rollback lib out cs r))
  unfolding rollback
  rollback-foreign [] r k n alone at x = (at, λ t. absurd t)
  rollback-foreign (c ∷ cs) r k n alone at (x, xs) =
      let (at', here) = rollback_one-foreign c r k n alone at x in
      let (at'', later) = rollback-foreign cs _ k n alone at' xs in
      (at'', λ t. elim t [ inl e ↦ rollback-keeps_errors lib out cs _ (here e) | inr u ↦ later u ])

  -- Where, when the compensation of a stopped transaction begins, a written path holds something
  -- else than the transaction wrote there (by kind or by hash), and nobody touches that path while
  -- the compensation runs: whatever else was changed by anybody and whatever fails, the path still
  -- holds it afterwards, and the error is "partial", with `rolled_back` False.
  pub rollback-keeps_foreign :
      (t : Transaction) (f : Failure) (k : String)
      → LeavesAlone k
      → AllForeign k (Dict.get k t.tree) t.applied
      → Touches k t.applied
      → (Dict.get k (rollback lib out t.applied (start_rollback lib out f t)).tree
          ≡ Dict.get k t.tree)
        × ((error_of lib out t.applied
              (rollback lib out t.applied (start_rollback lib out f t))).rollback_status
            ≡ partial)
        × ((error_of lib out t.applied
              (rollback lib out t.applied (start_rollback lib out f t))).rolled_back
            ≡ false)
  unfolding start_rollback
  rollback-keeps_foreign t f k alone x touched =
      let (at, errors) =
        rollback-foreign t.applied (start_rollback lib out f t) k (Dict.get k t.tree) alone refl
          x in
      let (status, back) = error_of-partial lib out t.applied _ (errors touched) in
      (at, status, back)
