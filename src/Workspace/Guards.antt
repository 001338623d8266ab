-- ===== src/Workspace/Guards.antt =====
-- What an application never does: start without the checks, or touch a protected file.
use refactor_agent.Common.{
  Bool-cases, Option-cases, contains, String, ◌≡◌, refl, sym, ap, subst, ◌∙◌, ◌≢◌, ◌↔◌, ◌⊎◌, inl,
  inr, true, false, none, List, [], ◌∷◌, arith, ◌==◌, eq_iff,
}
use refactor_agent.Dict
use refactor_agent.State.{State}
use refactor_agent.Paths.{PathError, Checked, is_protected_path, accepted, refused}
use refactor_agent.Workspace.{
  Tree, Files, Snapshots, WorkspaceLibrary, Outcome-cases, returned-injective, returned_through,
  returned_unless, same_text, same_text_sound, same_text_refl, differing, iter_snapshot_files,
  refuse_protected, assert_no_protected_changes, workspace_changed_paths, returned,
}
use refactor_agent.Workspace.Transaction.{Surroundings}
use refactor_agent.Workspace.Compensation.{Applied}
use refactor_agent.Workspace.Apply.{
  WorkspaceState, given, Checks, check_snapshots, atomic_apply_workspace,
}
use refactor_agent.Workspace.Gate.{IsChecked, check_snapshots-IsChecked}
use refactor_agent.Workspace.Differences.{contains-differing}

Checked-cases {ℓ} :
    {A : Type ℓ} (c : Checked A)
    → ((e : PathError) × (c ≡ refused e)) ⊎ ((a : A) × (c ≡ accepted a))
Checked-cases (refused e) = inl (e, refl)
Checked-cases (accepted a) = inr (a, refl)

refuse_protected_sound :
    (lib : WorkspaceLibrary) (ks : List String)
    → refuse_protected lib ks ≡ none
    → (k : String) → contains k ks ≡ true
    → is_protected_path lib.paths k ≡ accepted false
unfolding refuse_protected contains
refuse_protected_sound lib [] h k m = cc
refuse_protected_sound lib (j ∷ ks) h k m = elim (Checked-cases (is_protected_path lib.paths j)) [
  | inl (e, f) ↦ absurd (ground arith)
  | inr (true, f) ↦ absurd (ground arith)
  | inr (false, f) ↦ elim (Bool-cases (j == k)) [
    | inl same ↦ rw (← (eq_iff j k).0 same) f
    | inr ne ↦ refuse_protected_sound lib ks (ground arith) k (ground arith)
  ]
]

-- The list holds exactly the paths with different contents, and no protected one.
abbrev pub ListsChanges : WorkspaceLibrary → Files → Files → List String → Type 0
ListsChanges lib b f ks =
    (k : String)
    → ((contains k ks ≡ true) ↔ (Dict.get k b ≢ Dict.get k f))
      × (contains k ks ≡ true → is_protected_path lib.paths k ≡ accepted false)

differing-ListsChanges :
    (lib : WorkspaceLibrary) (b f : Files)
    → assert_no_protected_changes lib b f ≡ none
    → ListsChanges lib b f (differing b f)
unfolding assert_no_protected_changes
differing-ListsChanges lib b f h k = (
  (
    λ m e.
        let same = same_text_refl (Dict.get k f) in
        ground (arith, contains-differing k b f, ap (λ o. same_text o (Dict.get k f)) e),
    λ ne. elim (Bool-cases (same_text (Dict.get k b) (Dict.get k f))) [
      | inl e ↦ absurd (ne (same_text_sound (Dict.get k b) (Dict.get k f) e))
      | inr e ↦ ground (arith, contains-differing k b f)
    ],
  ),
  λ m. refuse_protected_sound lib (differing b f) h k m,
)

-- `workspace_changed_paths` returns exactly the paths at which the two snapshots differ, and none of
-- them is protected.
pub workspace_changed_paths-exact :
    (lib : WorkspaceLibrary) (w : Snapshots) (b f : Files) (ks : List String)
    → iter_snapshot_files lib w.baseline ≡ returned b
    → iter_snapshot_files lib w.working ≡ returned f
    → workspace_changed_paths lib w ≡ returned ks
    → ListsChanges lib b f ks
unfolding workspace_changed_paths
workspace_changed_paths-exact lib w b f ks hb hf h =
    let (b', eb, r) = returned_through (iter_snapshot_files lib w.baseline) _ ks h in
    let (f', ef, r2) = returned_through (iter_snapshot_files lib w.working) _ ks r in
    let (free, same) = returned_unless (assert_no_protected_changes lib b' f') _ ks r2 in
    subst (λ b. ListsChanges lib b f ks) (returned-injective b' b (sym eb ∙ hb))
      (subst (λ f. ListsChanges lib b' f ks) (returned-injective f' f (sym ef ∙ hf))
        (subst (ListsChanges lib b' f') same (differing-ListsChanges lib b' f' free)))

module _ (lib : WorkspaceLibrary) (out : Surroundings) where
  -- Whatever others do and whatever fails: where a transaction was started, the baseline has the
  -- recorded hashes, the working copy the approved ones and the source tree those of the baseline;
  -- no protected file differs; and the digest of the working copy is the reviewer's and the
  -- approved one.
  pub atomic_apply_workspace-IsChecked :
      (s : State) (w : WorkspaceState) (source : Tree) (snapshots : Snapshots) (a : Applied)
      → atomic_apply_workspace lib out s w source snapshots ≡ inl a
      → (checks : Checks) × IsChecked lib s w source snapshots checks
  unfolding atomic_apply_workspace
  atomic_apply_workspace-IsChecked s w source snapshots a h =
      elim (Option-cases (given s.workspace_id)) [
        | inl e ↦ absurd (ground arith)
        | inr (id, e) ↦ elim (Outcome-cases (check_snapshots lib s w source snapshots)) [
          | inl (y, g) ↦ absurd (ground arith)
          | inr (checks, g) ↦ (checks, check_snapshots-IsChecked lib s w source snapshots checks g)
        ]
      ]
