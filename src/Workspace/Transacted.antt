-- ===== src/Workspace/Transacted.antt =====
-- The whole transaction, seen as a change of the files of the tree: all changes or none, or an
-- error that says that not all could be taken back.
use refactor_agent.Common.{
  if◌then◌else◌, Bool-cases, String, ◌≡◌, refl, sym, ap, subst, ◌∙◌, inl, inr, Bool, false, Option,
  none, some, List, [], ◌∷◌, ◌++◌, arith, ◌==◌, eq_iff,
}
use refactor_agent.Dict
use refactor_agent.Workspace.{
  Node, Tree, WorkspaceLibrary, Operation, Failure, regular, directory, special, link,
}
use refactor_agent.Workspace.Targets.{Change}
use refactor_agent.Workspace.Transaction.{
  Surroundings, Transaction, Step, node_of, call_apply_hook, prepare, commit, commit_all,
  run_transaction, before_commit,
}
use refactor_agent.Workspace.Compensation.{
  AtomicApplyError, Rollback, temp_targets, is_removable, remove_found, remove_directory,
  remove_directories, rollback, start_rollback, error_of, Applied, finish_transaction,
  start_transaction, transact, partial,
}
use refactor_agent.Workspace.Saved.{AllPrepared, prepare-AllPrepared}
use refactor_agent.Workspace.Preparation.{bytes_of, file_at, AllWaiting, IsExpectation, AllFresh}
use refactor_agent.Workspace.Loops.{
  after, Separate, Separate-nil, Going, Committing, commit-Committing, halted, finished,
}
use refactor_agent.Workspace.Commits.{IsQuiet, and_then_elim, hook-quiet}
use refactor_agent.Workspace.Restoration.{AllApart, CanRestore, HasErrors, rollback-restores}

-- The bytes of `k` when the changes, one after the other, have been made.
abbrev pub bytes_after : String → List Change → Option String → Option String
bytes_after k [] old = old
bytes_after k (c ∷ cs) old = bytes_after k cs (if c.target == k then c.final else old)

bytes_of_node : (o : Option String) → bytes_of (node_of o) ≡ o
bytes_of_node none = refl
bytes_of_node (some bytes) = refl

bytes_of-after :
    (k : String) (cs : List Change) (n : Option Node)
    → bytes_of (after k cs n) ≡ bytes_after k cs (bytes_of n)
bytes_of-after k [] n = refl
bytes_of-after k (c ∷ cs) n = elim (Bool-cases (c.target == k)) [
  | inl e ↦
      rw e (bytes_of-after k cs (node_of c.final) ∙ ap (bytes_after k cs) (bytes_of_node c.final))
  | inr e ↦ rw e (bytes_of-after k cs n)
]

abbrev pub AllExpectations : List Change → Type 0
AllExpectations [] = Unit
AllExpectations (c ∷ cs) = IsExpectation c.expected × AllExpectations cs

-- Both trees have the same files.
abbrev pub SameFiles : Tree → Tree → Type 0
SameFiles tree tree' = (k : String) → file_at k tree' ≡ file_at k tree

-- All changes, or none.
pub record Installed (cs : List Change) (tree tree' : Tree) : Type 0 where
  pub files : (k : String) → file_at k tree' ≡ bytes_after k cs (file_at k tree)

module _ (fails : Operation → Bool) (temps : List String) where
  remove_found-files :
      (n : Option Node) (d : String) (tree : Tree)
      → Dict.get d tree ≡ n
      → SameFiles tree (remove_found fails temps n d tree)
  unfolding remove_found file_at
  remove_found-files (some directory) d tree e k =
      elim (Bool-cases (is_removable fails temps d tree)) [
        | inl f ↦ rw (f, Dict.get-pop) (ground (arith, eq_iff d k))
        | inr f ↦ rw f refl
      ]
  remove_found-files none d tree e k = refl
  remove_found-files (some (regular bytes)) d tree e k = refl
  remove_found-files (some special) d tree e k = refl
  remove_found-files (some link) d tree e k = refl

  remove_directory-files :
      (d : String) (tree : Tree) → SameFiles tree (remove_directory fails temps d tree)
  unfolding remove_directory
  remove_directory-files d tree k = remove_found-files (Dict.get d tree) d tree refl k

  remove_directories-files :
      (ds : List String) (tree : Tree) → SameFiles tree (remove_directories fails temps ds tree)
  unfolding remove_directories
  remove_directories-files [] tree k = refl
  remove_directories-files (d ∷ ds) tree k =
      remove_directories-files ds _ k ∙ remove_directory-files d tree k

pub data TransactedAs (cs : List Change) (tree : Tree) (r : Applied) : Type 0 where
  all_made : r.error ≡ none → Installed cs tree r.tree → TransactedAs cs tree r
  none_made :
      (e : AtomicApplyError) → r.error ≡ some e → SameFiles tree r.tree → TransactedAs cs tree r
  part_made :
      (e : AtomicApplyError)
      → r.error ≡ some e
      → e.rollback_status ≡ partial
      → e.rolled_back ≡ false
      → TransactedAs cs tree r

module _ (lib : WorkspaceLibrary) (out : Surroundings) where
  pub error_of-partial :
      (done : List Change) (r : Rollback)
      → HasErrors r
      → ((error_of lib out done r).rollback_status ≡ partial)
        × ((error_of lib out done r).rolled_back ≡ false)
  unfolding error_of
  error_of-partial done r (x, xs, e) = (rw (error_of, e) refl, rw (error_of, e) refl)

  -- A stopped transaction whose changes can be taken back.
  stopped-TransactedAs :
      (base : Tree) (cs : List Change) (tree : Tree) (t : Transaction) (f : Failure)
      → IsQuiet out
      → SameFiles tree base
      → CanRestore base t.applied t.tree t.backups
      → TransactedAs cs tree (finish_transaction lib out cs (t, some f))
  unfolding finish_transaction start_rollback
  stopped-TransactedAs base cs tree t f q same h =
      elim (rollback-restores lib out base t.applied (start_rollback lib out f t) q h) [
        | inl errors ↦
            let (status, back) =
              error_of-partial t.applied (rollback lib out t.applied (start_rollback lib out f t))
                errors in
            part_made _ refl status back
        | inr restored ↦ none_made _ refl λ k.
            let r : Rollback = rollback lib out t.applied (start_rollback lib out f t) in
            remove_directories-files out.fails
              (temp_targets cs t.prepared
                ++ temp_targets cs r.backups
                ++ temp_targets cs r.preserved)
              t.created_dirs r.tree k
            ∙ unfold file_at in ap bytes_of (restored k) ∙ same k
      ]

  finish-TransactedAs :
      (base : Tree) (cs : List Change) (tree : Tree) (t : Transaction) (r : Step)
      → IsQuiet out
      → SameFiles tree base
      → t.tree ≡ base
      → Committing lib out base cs t r
      → TransactedAs cs tree (finish_transaction lib out cs r)
  finish-TransactedAs base cs tree t (u, some f) q same e c = elim c [
    | halted g x h ↦ stopped-TransactedAs base cs tree u f q same h
    | finished n h ↦ absurd (ground arith)
  ]
  finish-TransactedAs base cs tree t (u, none) q same e c = elim c [
    | halted g x h ↦ absurd (ground arith)
    | finished n h ↦
        unfold finish_transaction in
        all_made refl record {
          files = λ k.
              unfold file_at in
              ap bytes_of (h k)
              ∙ bytes_of-after k cs _
              ∙ ap (bytes_after k cs) (ap (λ x. file_at k x) e ∙ same k);
        }
  ]

  -- Nothing has been applied yet.
  idle-TransactedAs :
      (cs : List Change) (tree : Tree) (s : Step) (f : Failure)
      → IsQuiet out
      → SameFiles tree s.0.tree
      → s.0.applied ≡ []
      → s.1 ≡ some f
      → TransactedAs cs tree (finish_transaction lib out cs s)
  idle-TransactedAs cs tree s f q same none_applied e =
      subst (λ o. TransactedAs cs tree (finish_transaction lib out cs (s.0, o))) (sym e)
        (stopped-TransactedAs s.0.tree cs tree s.0 f q same (
          subst (λ done. CanRestore s.0.tree done s.0.tree s.0.backups) (sym none_applied)
            record { tree_at = λ k. refl; undo = tt; apart = tt }))

  commit_all-TransactedAs :
      (cs : List Change) (tree : Tree) (t : Transaction)
      → IsQuiet out
      → AllApart cs
      → SameFiles tree t.tree
      → t.applied ≡ []
      → AllWaiting t.tree t.prepared t.backups cs
      → TransactedAs cs tree (finish_transaction lib out cs (commit_all lib out cs t))
  unfolding commit_all
  commit_all-TransactedAs cs tree t q a same none_applied w =
      let quiet = hook-quiet lib out before_commit t q in
      and_then_elim (λ s. TransactedAs cs tree (finish_transaction lib out cs s))
        (call_apply_hook lib out before_commit t) (commit lib out cs)
        (λ f e.
          idle-TransactedAs cs tree (call_apply_hook lib out before_commit t) f q
            (subst (λ (u : Transaction). SameFiles tree u.tree) (sym quiet) same)
            (ap (λ (u : Transaction). u.applied) quiet ∙ none_applied) e)
        λ e. rw quiet (
          finish-TransactedAs t.tree cs tree t (commit lib out cs t) q same refl
            (commit-Committing lib out t.tree cs t q going))
    where
      going : Going t.tree t cs
      going = record {
        can_restore =
            subst (λ done. CanRestore t.tree done t.tree t.backups) (sym none_applied)
              record { tree_at = λ k. refl; undo = tt; apart = tt };
        separate = subst (λ done. Separate done cs) (sym none_applied) (Separate-nil cs);
        waiting = w;
        distinct_left = a;
      }

  AllFresh-start : (cs : List Change) → AllExpectations cs → AllFresh [] [] cs
  unfolding Dict.get
  AllFresh-start [] x = tt
  AllFresh-start (c ∷ cs) (x, xs) =
      (x, record { no_final = refl; no_old = refl }, AllFresh-start cs xs)

  pub transact-TransactedAs :
      (cs : List Change) (tree : Tree)
      → IsQuiet out
      → AllApart cs
      → AllExpectations cs
      → TransactedAs cs tree (transact lib out cs tree)
  unfolding transact run_transaction start_transaction
  transact-TransactedAs cs tree q a x =
      let t : Transaction = start_transaction lib out tree in
      let p : AllPrepared lib out cs t (prepare lib out cs t) =
        prepare-AllPrepared lib out cs t a in
      and_then_elim (λ s. TransactedAs cs tree (finish_transaction lib out cs s))
        (prepare lib out cs t) (commit_all lib out cs)
        (λ f e. idle-TransactedAs cs tree (prepare lib out cs t) f q p.grows.files p.applied e)
        λ e.
          commit_all-TransactedAs cs tree (prepare lib out cs t).0 q a p.grows.files p.applied
            (p.waiting e (AllFresh-start cs x))
