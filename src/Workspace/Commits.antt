-- ===== src/Workspace/Commits.antt =====
-- What one committed change does to the tree and to the backups, where the hook leaves the tree
-- alone (it may raise) and the operating system may refuse anything.
use refactor_agent.Common.{
  if◌then◌else◌, Bool-cases, String, ◌≡◌, refl, sym, subst, ◌∙◌, inl, inr, false, Option, none,
  some, some-injective, ◌∷◌, arith, ◌==◌, eq_iff,
}
use refactor_agent.Dict
use refactor_agent.Workspace.{
  Node, Tree, Files, WorkspaceLibrary, Failure, regular, directory, special, link, before_replacing,
  replace, move_away, os_error,
}
use refactor_agent.Workspace.Targets.{Change, assert_target_matches_baseline}
use refactor_agent.Workspace.Transaction.{
  Moment, Surroundings, Transaction, Step, and_then, node_of, call_apply_hook, match_baseline,
  install, take_away, put_away, replace_by, replace_target, commit_one, before_replace,
  after_replace,
}

-- Nobody else changes the tree.
abbrev pub IsQuiet : Surroundings → Type 0
IsQuiet out = (m : Moment) (tree : Tree) → out.hook m tree ≡ tree

-- What a change makes of what stood at the path `k`.
abbrev pub effect : String → Change → Option Node → Option Node
effect k c old = if c.target == k then node_of c.final else old

-- The backup of a change holds what the path held in `base`, or both are missing.
pub data Undo (base : Tree) (backups : Files) (c : Change) : Type 0 where
  kept :
      (bytes : String)
      → Dict.get c.relative backups ≡ some bytes
      → Dict.get c.target base ≡ some (regular bytes)
      → Undo base backups c
  absent : Dict.get c.relative backups ≡ none → Dict.get c.target base ≡ none → Undo base backups c

pub record Replaced (c : Change) (t t' : Transaction) : Type 0 where
  pub tree : (k : String) → Dict.get k t'.tree ≡ effect k c (Dict.get k t.tree)
  pub applied : t'.applied ≡ c ∷ t.applied
  pub prepared :
      (k : String) → (c.relative == k) ≡ false → Dict.get k t'.prepared ≡ Dict.get k t.prepared
  pub backups :
      (k : String) → (c.relative == k) ≡ false → Dict.get k t'.backups ≡ Dict.get k t.backups
  pub undo : Undo t.tree t.backups c → Undo t.tree t'.backups c

-- The change was made, or nothing was and an exception was raised.
pub data Attempt (c : Change) (t : Transaction) (r : Step) : Type 0 where
  replaced : Replaced c t r.0 → Attempt c t r
  stopped : (f : Failure) → r.0 ≡ t → r.1 ≡ some f → Attempt c t r

pub and_then_elim {ℓ} :
    (P : Step → Type ℓ) (s : Step) (next : Transaction → Step)
    → ((f : Failure) → s.1 ≡ some f → P s)
    → (s.1 ≡ none → P (next s.0))
    → P (and_then s next)
unfolding and_then
and_then_elim P (t, none) next failed continued = continued refl
and_then_elim P (t, some f) next failed continued = failed f refl

module _ (lib : WorkspaceLibrary) (out : Surroundings) where
  pub data Committed (c : Change) (t : Transaction) (r : Step) : Type 0 where
    unmade : (f : Failure) → r.0 ≡ t → r.1 ≡ some f → Committed c t r
    made :
        Replaced c t r.0
        → assert_target_matches_baseline lib out.fails before_replacing t.tree c ≡ none
        → Committed c t r

  install-Attempt :
      (c : Change) (t : Transaction) (p : Option String) (bytes : String)
      → c.final ≡ some bytes
      → p ≡ some bytes
      → Attempt c t (install lib out c p t)
  unfolding install
  install-Attempt c t none bytes e h = stopped (os_error (replace c.relative)) refl refl
  install-Attempt c t (some b) bytes e h = elim (Bool-cases (out.fails (replace c.relative))) [
    | inl f ↦ rw f (stopped (os_error (replace c.relative)) refl refl)
    | inr f ↦ rw f (
        replaced record {
          tree = λ k. rw (e, Dict.get-put) (ground (arith, some-injective b bytes h));
          applied = refl;
          prepared = λ k ne. rw (Dict.get-pop, ne);
          backups = λ k ne. refl;
          undo = λ u. u;
        })
  ]

  take_away-Attempt :
      (c : Change) (t : Transaction) (n : Option Node)
      → c.final ≡ none
      → Dict.get c.target t.tree ≡ n
      → Attempt c t (take_away lib out c n t)
  unfolding take_away
  take_away-Attempt c t (some (regular bytes)) e at =
      elim (Bool-cases (out.fails (move_away c.relative))) [
        | inl f ↦ rw f (stopped (os_error (move_away c.relative)) refl refl)
        | inr f ↦ rw f (
            replaced record {
              tree = λ k. rw (e, Dict.get-pop);
              applied = refl;
              prepared = λ k ne. refl;
              backups = λ k ne. rw (Dict.get-put, ne);
              undo = λ u. kept bytes (rw (Dict.get-put, (eq_iff c.relative c.relative).1 refl)) at;
            })
      ]
  take_away-Attempt c t none e at = stopped (os_error (move_away c.relative)) refl refl
  take_away-Attempt c t (some directory) e at = stopped (os_error (move_away c.relative)) refl refl
  take_away-Attempt c t (some special) e at = stopped (os_error (move_away c.relative)) refl refl
  take_away-Attempt c t (some link) e at = stopped (os_error (move_away c.relative)) refl refl

  put_away-Attempt :
      (c : Change) (t : Transaction) (b : Option String)
      → c.final ≡ none
      → Attempt c t (put_away lib out c b t)
  unfolding put_away
  put_away-Attempt c t none e = stopped (os_error (move_away c.relative)) refl refl
  put_away-Attempt c t (some old) e = take_away-Attempt c t (Dict.get c.target t.tree) e refl

  replace_by-Attempt :
      (o : Option String) (c : Change) (t : Transaction)
      → c.final ≡ o
      → Dict.get c.relative t.prepared ≡ c.final
      → Attempt c t (replace_by lib out o c t)
  unfolding replace_by
  replace_by-Attempt none c t e p = put_away-Attempt c t (Dict.get c.relative t.backups) e
  replace_by-Attempt (some bytes) c t e p =
      install-Attempt c t (Dict.get c.relative t.prepared) bytes e (p ∙ e)

  replace_target-Attempt :
      (c : Change) (t : Transaction)
      → Dict.get c.relative t.prepared ≡ c.final
      → Attempt c t (replace_target lib out c t)
  unfolding replace_target
  replace_target-Attempt c t p = replace_by-Attempt c.final c t refl p

  pub hook-quiet :
      (m : Moment) (t : Transaction) → IsQuiet out → (call_apply_hook lib out m t).0 ≡ t
  unfolding call_apply_hook
  hook-quiet m t q = elim (Bool-cases (out.hook_raises m t.tree)) [
    | inl e ↦ rw (e, q m t.tree) refl
    | inr e ↦ rw (e, q m t.tree) refl
  ]

  hook-Committed :
      (m : Moment) (c : Change) (t t' : Transaction)
      → IsQuiet out
      → assert_target_matches_baseline lib out.fails before_replacing t.tree c ≡ none
      → Replaced c t t'
      → Committed c t (call_apply_hook lib out m t')
  hook-Committed m c t t' q e d = made (subst (Replaced c t) (sym (hook-quiet m t' q)) d) e

  replace-Committed :
      (c : Change) (t : Transaction)
      → IsQuiet out
      → Dict.get c.relative t.prepared ≡ c.final
      → assert_target_matches_baseline lib out.fails before_replacing t.tree c ≡ none
      → Committed c t (
          and_then
            (replace_target lib out c t)
            (call_apply_hook lib out (after_replace c.relative)))
  replace-Committed c t q p matched = elim (replace_target-Attempt c t p) [
    | stopped f same err ↦
        and_then_elim (Committed c t) (replace_target lib out c t) _ (λ g e. unmade g same e)
          λ none_e. absurd (ground arith)
    | replaced d ↦
        and_then_elim (Committed c t) (replace_target lib out c t) _ (λ g e. made d matched)
          λ none_e. hook-Committed (after_replace c.relative) c t _ q matched d
  ]

  match-Committed :
      (c : Change) (t : Transaction)
      → IsQuiet out
      → Dict.get c.relative t.prepared ≡ c.final
      → Committed c t (
          and_then (match_baseline lib out c t) λ t.
            and_then
              (replace_target lib out c t)
              (call_apply_hook lib out (after_replace c.relative)))
  unfolding match_baseline
  match-Committed c t q p =
      and_then_elim (Committed c t) (match_baseline lib out c t) _ (λ f e. unmade f refl e)
        (replace-Committed c t q p)

  -- A change was made where the baseline matched, or nothing was done.
  pub commit_one-Committed :
      (c : Change) (t : Transaction)
      → IsQuiet out
      → Dict.get c.relative t.prepared ≡ c.final
      → Committed c t (commit_one lib out c t)
  unfolding commit_one
  commit_one-Committed c t q p =
      and_then_elim (Committed c t) (call_apply_hook lib out (before_replace c.relative) t) _
        (λ f e. unmade f (hook-quiet (before_replace c.relative) t q) e)
        λ e. rw (hook-quiet (before_replace c.relative) t q) (match-Committed c t q p)
