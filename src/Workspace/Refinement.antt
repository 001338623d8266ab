-- ===== src/Workspace/Refinement.antt =====
-- `atomic_apply_workspace` against what it promises: the files of the source tree become those of
-- the working snapshot, or stay as they were.
use refactor_agent.Common.{
  if◌then◌else◌, Bool-cases, Option-cases, contains, String, ◌≡◌, refl, sym, subst, ◌∙◌, inl, inr,
  Bool, true, false, Option, none, some, some-injective, List, [], ◌∷◌, arith,
}
use refactor_agent.Dict
use refactor_agent.Workspace.{
  Tree, Files, Snapshots, WorkspaceLibrary, Temp, Operation, Failure, Outcome-cases,
  returned-injective, same_text, differing, iter_snapshot_files, unlink_temp, missing_workspace,
  hook_error, returned,
}
use refactor_agent.Workspace.Targets.{Change, normalize_snapshot_path}
use refactor_agent.Workspace.Transaction.{Surroundings, Step, run_transaction, after_preflight}
use refactor_agent.Workspace.Compensation.{
  AtomicApplyError, Applied, unlink_temps, finish_transaction, start_transaction, transact, partial,
}
use refactor_agent.Workspace.Apply.{
  WorkspaceState, given, Checks, check_snapshots, plan_changes, Result, apply_changes,
  apply_checked, atomic_apply_workspace,
}
use refactor_agent.Workspace.Commits.{IsQuiet}
use refactor_agent.Workspace.Preparation.{file_at}
use refactor_agent.Workspace.Transacted.{
  bytes_after, SameFiles, TransactedAs, transact-TransactedAs, all_made, none_made, part_made,
}
use refactor_agent.Workspace.Planning.{plan_changes-apart, AllCanonical, bytes_after_plan}
use refactor_agent.Workspace.Differences.{contains-differing}
use refactor_agent.State.{State}
use refactor_agent.Workspace.Gate.{check_snapshots-IsChecked}

-- What the source file `k` is to be: the final one, if it was changed.
abbrev pub install_final : Files → Files → String → Option String → Option String
install_final baseline_files final_files k old =
    if same_text (Dict.get k baseline_files) (Dict.get k final_files)
    then old
    else Dict.get k final_files

-- How the changes and their compensation can end, as a change of the files of `source`.
pub data FinishedAs (baseline_files final_files : Files) (source : Tree) (a : Applied)
    : Type 0 where
  finished_all :
      a.error ≡ none
      → ((k : String)
          → file_at k a.tree ≡ install_final baseline_files final_files k (file_at k source))
      → FinishedAs baseline_files final_files source a
  finished_none :
      (e : AtomicApplyError)
      → a.error ≡ some e
      → SameFiles source a.tree
      → FinishedAs baseline_files final_files source a
  finished_partly :
      (e : AtomicApplyError)
      → a.error ≡ some e
      → e.rollback_status ≡ partial
      → e.rolled_back ≡ false
      → FinishedAs baseline_files final_files source a

-- How an application can end: behind its transaction, before it, or with the exception of an unlink
-- that `finally` is refused, which is raised in place of what the transaction ends with.
pub data AppliedAs (fails : Operation → Bool) (baseline_files final_files : Files) (source : Tree)
    (r : Result) : Type 0 where
  finished_apply :
      (a : Applied)
      → r ≡ inl a
      → a.refused_unlink ≡ none
      → FinishedAs baseline_files final_files source a
      → AppliedAs fails baseline_files final_files source r
  not_started :
      (tree : Tree) (f : Failure)
      → r ≡ inr (tree, f)
      → SameFiles source tree
      → AppliedAs fails baseline_files final_files source r
  cleanup_stopped :
      (a : Applied) (temp : Temp)
      → r ≡ inl a
      → a.refused_unlink ≡ some temp
      → fails (unlink_temp temp) ≡ true
      → FinishedAs baseline_files final_files source a
      → AppliedAs fails baseline_files final_files source r

unlink_temps-refused :
    (fails : Operation → Bool) (temps : List Temp) (temp : Temp)
    → unlink_temps fails temps ≡ some temp
    → fails (unlink_temp temp) ≡ true
unfolding unlink_temps
unlink_temps-refused fails [] temp h = absurd (ground arith)
unlink_temps-refused fails (t ∷ ts) temp h = elim (Bool-cases (fails (unlink_temp t))) [
  | inl e ↦
      let same : t ≡ temp = some-injective t temp (ground (arith, e)) in
      subst (λ u. fails (unlink_temp u) ≡ true) same e
  | inr e ↦ unlink_temps-refused fails ts temp (ground (arith, e))
]

finish_transaction-refused :
    (lib : WorkspaceLibrary) (out : Surroundings) (cs : List Change) (s : Step) (temp : Temp)
    → (finish_transaction lib out cs s).refused_unlink ≡ some temp
    → out.fails (unlink_temp temp) ≡ true
unfolding finish_transaction
finish_transaction-refused lib out cs (t, none) temp h = unlink_temps-refused out.fails _ temp h
finish_transaction-refused lib out cs (t, some f) temp h = unlink_temps-refused out.fails _ temp h

transact-refused :
    (lib : WorkspaceLibrary) (out : Surroundings) (cs : List Change) (tree : Tree) (temp : Temp)
    → (transact lib out cs tree).refused_unlink ≡ some temp
    → out.fails (unlink_temp temp) ≡ true
unfolding transact
transact-refused lib out cs tree temp h =
    finish_transaction-refused lib out cs
      (run_transaction lib out cs (start_transaction lib out tree)) temp h

module _ (lib : WorkspaceLibrary) (out : Surroundings) (q : IsQuiet out) where
  transact-FinishedAs :
      (b f : Files) (cs : List Change) (source : Tree) (a : Applied)
      → TransactedAs cs source a
      → ((k : String) (old : Option String) → bytes_after k cs old ≡ install_final b f k old)
      → FinishedAs b f source a
  transact-FinishedAs b f cs source a t h = elim t [
    | all_made n i ↦ finished_all n λ k. i.files k ∙ h k _
    | none_made x n same ↦ finished_none x n same
    | part_made x n status back ↦ finished_partly x n status back
  ]

  concluded-AppliedAs :
      (b f : Files) (source : Tree) (a : Applied)
      → ((temp : Temp) → a.refused_unlink ≡ some temp → out.fails (unlink_temp temp) ≡ true)
      → FinishedAs b f source a
      → AppliedAs out.fails b f source (inl a)
  concluded-AppliedAs b f source a refusals x = elim (Option-cases a.refused_unlink) [
    | inl e ↦ finished_apply a refl e x
    | inr (temp, e) ↦ cleanup_stopped a temp refl e (refusals temp e) x
  ]

  apply_changes-AppliedAs :
      (b f : Files) (cs : List Change) (source : Tree)
      → TransactedAs cs source (transact lib out cs source)
      → ((k : String) (old : Option String) → bytes_after k cs old ≡ install_final b f k old)
      → AppliedAs out.fails b f source (apply_changes lib out cs source)
  unfolding apply_changes
  apply_changes-AppliedAs b f cs source t h =
      elim (Bool-cases (out.hook_raises after_preflight source)) [
        | inl e ↦ rw (e, q after_preflight source) (not_started source hook_error refl λ k. refl)
        | inr e ↦
            rw (e, q after_preflight source)
              (concluded-AppliedAs b f source (transact lib out cs source)
                (transact-refused lib out cs source)
                (transact-FinishedAs b f cs source (transact lib out cs source) t h))
      ]

  apply_checked-AppliedAs :
      (w : WorkspaceState) (source : Tree) (b f : Files)
      → AllCanonical lib out.fails w.baseline_file_hashes f source (differing b f)
      → AppliedAs out.fails b f source
          (apply_checked lib out w source (record { baseline_files = b; final_files = f }))
  unfolding apply_checked
  apply_checked-AppliedAs w source b f x =
      elim (Outcome-cases
        (plan_changes lib out.fails w.baseline_file_hashes f source [] (differing b f))) [
          | inl (e, h) ↦ rw (apply_checked, h) (not_started source e refl λ k. refl)
          | inr (cs, h) ↦
              rw (apply_checked, h)
                let (a, expect) =
                    plan_changes-apart lib out.fails w.baseline_file_hashes f source (differing b f)
                      cs h in
                  apply_changes-AppliedAs b f cs source
                    (transact-TransactedAs lib out cs source q a expect)
                    λ k old.
                      bytes_after_plan lib out.fails w.baseline_file_hashes f source []
                        (differing b f) cs x h k old
                      ∙ ground (arith, contains-differing k b f)
        ]

  checked-AppliedAs :
      (w : WorkspaceState) (source : Tree) (b f : Files) (checks : Checks)
      → AllCanonical lib out.fails w.baseline_file_hashes f source (differing b f)
      → checks.baseline_files ≡ b
      → checks.final_files ≡ f
      → AppliedAs out.fails b f source (apply_checked lib out w source checks)
  checked-AppliedAs w source b f checks x eb ef =
      subst
        (λ u.
          AppliedAs out.fails b f source
            (apply_checked lib out w source (record checks { baseline_files = u })))
        (sym eb)
        (subst
          (λ v.
            AppliedAs out.fails b f source
              (apply_checked lib out w source (record { baseline_files = b; final_files = v })))
          (sym ef) (apply_checked-AppliedAs w source b f x))

  -- Whenever nobody else changes the source tree while it runs (hooks may raise, and any request
  -- to the operating system may fail), and the changed paths of the snapshots are in the form that
  -- `_normalize_snapshot_path` gives, `_atomic_apply_workspace_locked` raises before its transaction,
  -- and every source file is as it was; or the transaction does one of three things: it makes every
  -- change, so that each source file is the working one if the run changed it and as it was if not;
  -- it comes to AtomicApplyError, and every source file is as it was; or it comes to AtomicApplyError
  -- with the rollback status "partial" and `rolled_back` False. It ends in that way, unless the
  -- operating system refuses to delete a temporary file at the end: then that exception is raised
  -- instead, with the source files as the transaction has left them.
  pub atomic_apply_workspace-AppliedAs :
      (s : State) (w : WorkspaceState) (source : Tree) (snapshots : Snapshots) (b f : Files)
      → iter_snapshot_files lib snapshots.baseline ≡ returned b
      → iter_snapshot_files lib snapshots.working ≡ returned f
      → ((k : String)
          → contains k (differing b f) ≡ true
          → normalize_snapshot_path lib k ≡ returned k)
      → AppliedAs out.fails b f source (atomic_apply_workspace lib out s w source snapshots)
  unfolding atomic_apply_workspace
  atomic_apply_workspace-AppliedAs s w source snapshots b f hb hf x =
      elim (Option-cases (given s.workspace_id)) [
        | inl e ↦
            rw (atomic_apply_workspace, e) (not_started source missing_workspace refl λ k. refl)
        | inr (id, e) ↦ elim (Outcome-cases (check_snapshots lib s w source snapshots)) [
          | inl (y, g) ↦ rw (atomic_apply_workspace, e, g) (not_started source y refl λ k. refl)
          | inr (checks, g) ↦
              rw (atomic_apply_workspace, e, g)
                (checked-AppliedAs w source b f checks x
                  (let c = check_snapshots-IsChecked lib s w source snapshots checks g in
                    returned-injective _ b (sym c.baseline_listed ∙ hb))
                  (let c = check_snapshots-IsChecked lib s w source snapshots checks g in
                    returned-injective _ f (sym c.final_listed ∙ hf)))
        ]
      ]
