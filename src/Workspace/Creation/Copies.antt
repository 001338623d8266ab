-- ===== src/Workspace/Creation/Copies.antt =====
-- What a new workspace is, where its creation raises nothing (backend/agent/workspace.py).
use refactor_agent.Common.{
  if◌then◌else◌, Bool-cases, Option-cases, select, String, ◌≡◌, refl, sym, ap, subst, ◌∙◌, ◌≢◌, inl,
  inr, Bool, true, false, Option, none, some, List, [], ◌∷◌, arith, ◌==◌, eq_iff,
}
use refactor_agent.Dict
use refactor_agent.Dict.{Dict}
use refactor_agent.Workspace.{
  Node, Tree, Files, Snapshots, Disk, WorkspaceLibrary, Copying, Operation, Failure, Outcome,
  Outcome-cases, same_text_refl, differing, iter_snapshot_files, hash_snapshot, refuse_protected,
  assert_no_protected_changes, workspace_changed_paths, to_baseline, to_working,
  make_workspace_root, snapshot_has_link, workspace_exists, returned, raised,
}
use refactor_agent.Workspace.Approval.{Run, snapshots_of, is_workspace_id}
use refactor_agent.Workspace.Creation.{
  has_link, is_root_path, new_work, is_source_path, copy_error, add_copy, copy_tree, copy_again,
  copy_snapshots, hash_baseline, abandon, finish_creation, create_at, create_run_workspace,
}

module _ (lib : WorkspaceLibrary) (fails : Operation → Bool) where
  select-none :
      (p : String → Bool) (xs : List String) → ((k : String) → p k ≡ false) → select p xs ≡ []
  unfolding select
  select-none p [] h = refl
  select-none p (x ∷ xs) h = rw (h x) (select-none p xs h)

  differing_self : (d : Files) → differing d d ≡ []
  unfolding differing
  differing_self d = select-none _ _ λ k. rw (same_text_refl (Dict.get k d)) refl

  -- Equal snapshots that can be listed have no changed paths.
  unchanged_paths :
      (tree : Tree) (hashes : Files)
      → hash_snapshot lib tree ≡ returned hashes
      → workspace_changed_paths lib (record { baseline = tree; working = tree }) ≡ returned []
  unfolding hash_snapshot workspace_changed_paths assert_no_protected_changes refuse_protected
  unchanged_paths tree hashes h = elim (Outcome-cases (iter_snapshot_files lib tree)) [
    | inl (f, e) ↦ absurd (ground arith)
    | inr (files, e) ↦
        rw (workspace_changed_paths, e, e, assert_no_protected_changes, differing_self files)
          (ap returned (differing_self files))
  ]

  get-skipped :
      (kept : Bool) (path k : String) (node : Node) (tree : Tree)
      → ((path == k) ≡ true → kept ≡ false)
      → (if kept then Dict.get k tree else none)
        ≡ (if kept then Dict.get k ((path, node) ∷ tree) else none)
  unfolding Dict.get
  get-skipped false path k node tree h = refl
  get-skipped true path k node tree h = elim (Bool-cases (path == k)) [
    | inl same ↦ absurd (ground (arith, h same))
    | inr other ↦ rw other refl
  ]

  -- A copy that raises nothing has every entry that is kept, and no other.
  copy_tree-copies :
      (to : Copying) (keeps : String → Bool) (tree : Tree) (k : String)
      → (copy_tree lib fails to keeps tree).1 ≡ none
      → Dict.get k (copy_tree lib fails to keeps tree).0
        ≡ (if keeps k then Dict.get k tree else none)
  unfolding copy_tree add_copy Dict.get
  copy_tree-copies to keeps [] k h = ground arith
  copy_tree-copies to keeps ((path, node) ∷ tree) k h = elim (Bool-cases (keeps path)) [
    | inr e ↦
        let ih = copy_tree-copies to keeps tree k (rw e at h) in
        rw e (
          ih
          ∙ get-skipped (keeps k) path k node tree
              λ same. subst (λ x. keeps x ≡ false) ((eq_iff path k).0 same) e)
    | inl e ↦ elim (Option-cases (copy_error lib fails to path node)) [
      | inr (f, c) ↦ absurd (ground (arith, e, c))
      | inl c ↦
          let ih = copy_tree-copies to keeps tree k (rw (e, add_copy, c) at h) in
          rw (e, add_copy, c)
            (elim (Bool-cases (path == k)) [
              | inl same ↦
                  let kept : keeps k ≡ true =
                    subst (λ x. keeps x ≡ true) ((eq_iff path k).0 same) e in
                  rw (kept, same) refl
              | inr other ↦ rw other ih
            ])
    ]
  ]

  source_path-root_path :
      (path : String) → is_source_path lib fails path ≡ true → is_root_path path ≡ true
  unfolding is_source_path is_root_path
  source_path-root_path path h = ground arith

  -- The copy of a baseline is the baseline.
  copy_tree-again :
      (source : Tree)
      → (copy_tree lib fails to_working is_root_path
          (copy_tree lib fails to_baseline (is_source_path lib fails) source).0).1
        ≡ none
      → (copy_tree lib fails to_working is_root_path
          (copy_tree lib fails to_baseline (is_source_path lib fails) source).0).0
        ≡ (copy_tree lib fails to_baseline (is_source_path lib fails) source).0
  unfolding copy_tree add_copy
  copy_tree-again [] = λ h. refl
  copy_tree-again ((path, node) ∷ tree) = elim (Bool-cases (is_source_path lib fails path)) [
    | inr e ↦ rw e (copy_tree-again tree)
    | inl e ↦ elim (Option-cases (copy_error lib fails to_baseline path node)) [
      | inr (f, c) ↦ rw (e, add_copy, c) (copy_tree-again tree)
      | inl c ↦
          rw (e, add_copy, c, source_path-root_path path e)
            elim (Option-cases (copy_error lib fails to_working path node)) [
              | inr (g, d) ↦ rw (add_copy, d) λ h. absurd (ground arith)
              | inl d ↦
                  rw (add_copy, d) λ h. ap (λ (t : Tree). (path, node) ∷ t) (copy_tree-again tree h)
            ]
    ]
  ]

  -- What a new workspace is: see `create_run_workspace-IsNew`.
  pub record IsNew (id : String) (r r' : Run) : Type 0 where
    pub named : r'.state.workspace_id ≡ some id
    pub was_free : Dict.get id r.disk.workspaces ≡ none
    pub copied :
        (k : String)
        → Dict.get k (snapshots_of id r'.disk).baseline
          ≡ (if is_source_path lib fails k then Dict.get k r.disk.source else none)
    pub same : (snapshots_of id r'.disk).working ≡ (snapshots_of id r'.disk).baseline
    pub hashed :
        hash_snapshot lib (snapshots_of id r'.disk).baseline ≡ returned r'.work.baseline_file_hashes
    pub unchanged : workspace_changed_paths lib (snapshots_of id r'.disk) ≡ returned []
    pub unapplied :
        (r'.work.workspace_approved ≡ false)
        × (r'.work.workspace_applied ≡ false)
        × (r'.work.workspace_error ≡ none)
    pub source : r'.disk.source ≡ r.disk.source
    pub others :
        (other : String)
        → (id == other) ≡ false
        → Dict.get other r'.disk.workspaces ≡ Dict.get other r.disk.workspaces

  snapshots_of-put :
      (id : String) (s : Snapshots) (source : Tree) (w : Dict Snapshots)
      → snapshots_of id (record { source = source; workspaces = Dict.put id s w }) ≡ s
  unfolding snapshots_of
  snapshots_of-put id s source w = rw (snapshots_of, Dict.get-put, (eq_iff id id).1 refl) refl

  -- The snapshots that are copied without an exception.
  record AreCopies (source : Tree) (s : Snapshots) : Type 0 where
    copied :
        (k : String)
        → Dict.get k s.baseline ≡ (if is_source_path lib fails k then Dict.get k source else none)
    same : s.working ≡ s.baseline

  copy_snapshots-AreCopies :
      (source : Tree)
      → (copy_snapshots lib fails source).1 ≡ none
      → AreCopies source (copy_snapshots lib fails source).0
  unfolding copy_snapshots copy_again
  copy_snapshots-AreCopies source =
      let copy = copy_tree lib fails to_baseline (is_source_path lib fails) source in
      elim (Option-cases (copy_tree lib fails to_baseline (is_source_path lib fails) source).1) [
        | inr (f, e) ↦ rw (copy_snapshots, copy_again, e) λ h. absurd (ground arith)
        | inl e ↦
            rw (copy_snapshots, copy_again, e)
              λ h. record {
                copied = λ k. copy_tree-copies to_baseline (is_source_path lib fails) source k e;
                same = copy_tree-again source h;
              }
      ]

  abandon-raises :
      (f : Failure) (x : Disk × Option Failure) (r : Run) → (abandon lib fails f x r).1 ≢ none
  unfolding abandon
  abandon-raises f (disk, none) r h = absurd (ground arith)
  abandon-raises f (disk, some g) r h = absurd (ground arith)

  finish_creation-IsNew :
      (id : String) (r : Run) (s : Snapshots) (e : Option Failure) (o : Outcome Files)
      → hash_baseline lib fails s e ≡ o
      → (e ≡ none → AreCopies r.disk.source s)
      → Dict.get id r.disk.workspaces ≡ none
      → (finish_creation lib fails id r s o).1 ≡ none
      → IsNew id r (finish_creation lib fails id r s o).0
  unfolding finish_creation hash_baseline new_work
  finish_creation-IsNew id r s e (raised f) hashed copies free h = absurd (abandon-raises f _ r h)
  finish_creation-IsNew id r s (some g) (returned hashes) hashed copies free h =
      absurd (ground arith)
  finish_creation-IsNew id r s none (returned hashes) hashed copies free h =
      let c : AreCopies r.disk.source s = copies refl in
      let put_there = snapshots_of-put id s r.disk.source r.disk.workspaces in
      let paired : s ≡ record { baseline = s.baseline; working = s.baseline } =
        ap (λ t. record { baseline = s.baseline; working = t }) c.same in
      record {
        named = refl;
        was_free = free;
        copied = λ k. ap (λ (x : Snapshots). Dict.get k x.baseline) put_there ∙ c.copied k;
        same =
            ap (λ (x : Snapshots). x.working) put_there
            ∙ c.same
            ∙ sym (ap (λ (x : Snapshots). x.baseline) put_there);
        hashed = ap (λ (x : Snapshots). hash_snapshot lib x.baseline) put_there ∙ hashed;
        unchanged =
            ap (workspace_changed_paths lib) (put_there ∙ paired)
            ∙ unchanged_paths s.baseline hashes hashed;
        unapplied = (refl, refl, refl);
        source = refl;
        others = λ other ne. rw (Dict.get-put, ne) refl;
      }

  create_at-IsNew :
      (id : String) (r : Run) (o : Option Snapshots)
      → Dict.get id r.disk.workspaces ≡ o
      → (create_at lib fails id r o).1 ≡ none
      → IsNew id r (create_at lib fails id r o).0
  unfolding create_at
  create_at-IsNew id r (some found) e h = absurd (abandon-raises workspace_exists _ r h)
  create_at-IsNew id r none e h =
      finish_creation-IsNew id r (copy_snapshots lib fails r.disk.source).0
        (copy_snapshots lib fails r.disk.source).1 _ refl (copy_snapshots-AreCopies r.disk.source) e
        h

  -- Where `create_run_workspace` returns, no workspace had the id; the baseline holds what stands in
  -- the source tree at the code root and below, except what is ignored, and nothing else; the working
  -- copy, which is copied from it, is the same tree, so that no path is changed; the recorded hashes
  -- are those of the baseline; nothing is approved, applied or in error; and the source tree and the
  -- other workspaces are as they were.
  pub create_run_workspace-IsNew :
      (id : String) (r : Run)
      → (create_run_workspace lib fails id r).1 ≡ none
      → IsNew id r (create_run_workspace lib fails id r).0
  unfolding create_run_workspace
  create_run_workspace-IsNew id r = elim (Bool-cases (is_workspace_id id)) [
    | inr e ↦ rw (create_run_workspace, e) λ h. absurd (ground arith)
    | inl e ↦ elim (Bool-cases (fails make_workspace_root)) [
      | inl f ↦ rw (create_run_workspace, e, f) λ h. absurd (ground arith)
      | inr f ↦ elim (Bool-cases (has_link r.disk.source)) [
        | inl g ↦
            rw (create_run_workspace, e, f, g) λ h. absurd (abandon-raises snapshot_has_link _ r h)
        | inr g ↦
            rw (create_run_workspace, e, f, g)
              (create_at-IsNew id r (Dict.get id r.disk.workspaces) refl)
      ]
    ]
  ]
