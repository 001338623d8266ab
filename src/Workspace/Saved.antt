-- ===== src/Workspace/Saved.antt =====
-- Each change that has been prepared waits: its temporary files hold the final and the old bytes.
use refactor_agent.Common.{
  Bool-cases, String, ◌≡◌, refl, sym, ap, subst, ◌∙◌, ◌⊎◌, inl, inr, false, Option, none, some,
  List, [], ◌∷◌, arith, ◌==◌, eq_iff,
}
use refactor_agent.Dict
use refactor_agent.Workspace.{
  Node, Tree, WorkspaceLibrary, Failure, regular, directory, special, link, write_prepared,
  write_backup,
}
use refactor_agent.Workspace.Targets.{TargetState, Change, missing, file, is_directory, is_special}
use refactor_agent.Workspace.Transaction.{
  Surroundings, Transaction, Step, assert_no_reparse_components, ensure_parent_directory,
  prepare_final, prepare_backup, prepare_files, prepare_below, prepare_parent, prepare_one, prepare,
}
use refactor_agent.Workspace.Commits.{and_then_elim}
use refactor_agent.Workspace.Restoration.{Apart, AllApart}
use refactor_agent.Workspace.Preparation.{
  Grows, Grows-refl, Grows-trans, Waiting, AllWaiting, IsFresh, IsExpectation, AllFresh, Elsewhere,
  Prepared, Setup-Prepared, no_reparse-Setup, ensure_parent-Setup,
}

module _ (lib : WorkspaceLibrary) (out : Surroundings) where
  record FinalSaved (c : Change) (o : Option String) (t : Transaction) (r : Step) : Type 0 where
    same : r.0 ≡ record t { prepared = r.0.prepared }
    others :
        (k : String) → (c.relative == k) ≡ false → Dict.get k r.0.prepared ≡ Dict.get k t.prepared
    saved :
        r.1 ≡ none → Dict.get c.relative t.prepared ≡ none → Dict.get c.relative r.0.prepared ≡ o

  prepare_final-FinalSaved :
      (o : Option String) (c : Change) (t : Transaction)
      → FinalSaved c o t (prepare_final lib out o c t)
  unfolding prepare_final
  prepare_final-FinalSaved none c t = record {
    same = refl;
    others = λ k ne. refl;
    saved = λ n e. e;
  }
  prepare_final-FinalSaved (some bytes) c t =
      elim (Bool-cases (out.fails (write_prepared c.relative))) [
        | inl f ↦
            rw f record { same = refl; others = λ k ne. refl; saved = λ n. absurd (ground arith) }
        | inr f ↦ rw f record {
          same = refl;
          others = λ k ne. rw (Dict.get-put, ne) refl;
          saved = λ n e. rw (Dict.get-put, (eq_iff c.relative c.relative).1 refl) refl;
        }
      ]

  record OldSaved (c : Change) (x : TargetState) (n : Option Node) (t : Transaction) (r : Step)
      : Type 0 where
    same : r.0 ≡ record t { backups = r.0.backups }
    others :
        (k : String) → (c.relative == k) ≡ false → Dict.get k r.0.backups ≡ Dict.get k t.backups
    saved :
        r.1 ≡ none
        → Dict.get c.relative t.backups ≡ none
        → ((bytes : String) × (Dict.get c.relative r.0.backups ≡ some bytes)
            × (n ≡ some (regular bytes)))
          ⊎ ((Dict.get c.relative r.0.backups ≡ none) × (IsExpectation x → x ≡ missing))

  refused_backup :
      (c : Change) (x : TargetState) (n : Option Node) (t : Transaction) (f : Failure)
      → OldSaved c x n t (t, some f)
  refused_backup c x n t f = record {
    same = refl;
    others = λ k ne. refl;
    saved = λ n. absurd (ground arith);
  }

  no_backup :
      (c : Change) (x : TargetState) (n : Option Node) (t : Transaction)
      → (IsExpectation x → x ≡ missing)
      → OldSaved c x n t (t, none)
  no_backup c x n t h = record { same = refl; others = λ k ne. refl; saved = λ n e. inr (e, h) }

  prepare_backup-OldSaved :
      (x : TargetState) (n : Option Node) (c : Change) (t : Transaction)
      → OldSaved c x n t (prepare_backup lib out x n c t)
  unfolding prepare_backup
  prepare_backup-OldSaved (file hash) (some (regular bytes)) c t =
      elim (Bool-cases (out.fails (write_backup c.relative))) [
        | inl f ↦ rw f (refused_backup c (file hash) (some (regular bytes)) t _)
        | inr f ↦ rw f record {
          same = refl;
          others = λ k ne. rw (Dict.get-put, ne) refl;
          saved = λ n e.
              inl (bytes, rw (Dict.get-put, (eq_iff c.relative c.relative).1 refl) refl, refl);
        }
      ]
  prepare_backup-OldSaved (file hash) none c t = refused_backup c (file hash) none t _
  prepare_backup-OldSaved (file hash) (some directory) c t = refused_backup c (file hash) _ t _
  prepare_backup-OldSaved (file hash) (some special) c t = refused_backup c (file hash) _ t _
  prepare_backup-OldSaved (file hash) (some link) c t = refused_backup c (file hash) _ t _
  prepare_backup-OldSaved missing n c t = no_backup c missing n t (λ x. refl)
  prepare_backup-OldSaved is_directory n c t = no_backup c is_directory n t (λ x. ground arith)
  prepare_backup-OldSaved is_special n c t = no_backup c is_special n t (λ x. ground arith)

  -- The two temporary files, the backup behind the final bytes.
  saved-Waiting :
      (c : Change) (t u : Transaction) (r : Step)
      → u.backups ≡ t.backups
      → Dict.get c.relative u.prepared ≡ c.final
      → OldSaved c c.expected (Dict.get c.target u.tree) u r
      → r.1 ≡ none
      → IsFresh t.prepared t.backups c
      → IsExpectation c.expected
      → Waiting r.0.tree r.0.prepared r.0.backups c
  saved-Waiting c t u r same final b n fresh x = record {
    final_saved = ap (λ (v : Transaction). Dict.get c.relative v.prepared) b.same ∙ final;
    old_saved = elim (b.saved n (ap (Dict.get c.relative) same ∙ fresh.no_old)) [
      | inl (bytes, e, at) ↦
          inl (bytes, e, ap (λ (v : Transaction). Dict.get c.target v.tree) b.same ∙ at)
      | inr (e, m) ↦ inr (e, m x)
    ];
  }

  same-Grows : (t : Transaction) (tree : Tree) → tree ≡ t.tree → Grows t.tree tree
  same-Grows t tree e = subst (Grows t.tree) (sym e) (Grows-refl t.tree)

  files-Prepared : (c : Change) (t : Transaction) → Prepared c t (prepare_files lib out c t)
  unfolding prepare_files
  files-Prepared c t =
      let s : Step = prepare_final lib out c.final c t in
      let f : FinalSaved c c.final t s = prepare_final-FinalSaved c.final c t in
      let tree : s.0.tree ≡ t.tree = ap (λ (v : Transaction). v.tree) f.same in
      let applied : s.0.applied ≡ t.applied = ap (λ (v : Transaction). v.applied) f.same in
      let backups : s.0.backups ≡ t.backups = ap (λ (v : Transaction). v.backups) f.same in
      and_then_elim (Prepared c t) s _
        (λ x e. record {
          grows = same-Grows t _ tree;
          applied = applied;
          prepared = f.others;
          backups = λ k ne. ap (Dict.get k) backups;
          waiting = λ n. absurd (ground arith);
        })
        λ e.
          let b = prepare_backup-OldSaved c.expected (Dict.get c.target s.0.tree) c s.0 in
          record {
            grows = same-Grows t _ (ap (λ (v : Transaction). v.tree) b.same ∙ tree);
            applied = ap (λ (v : Transaction). v.applied) b.same ∙ applied;
            prepared =
                λ k ne. ap (λ (v : Transaction). Dict.get k v.prepared) b.same ∙ f.others k ne;
            backups = λ k ne. b.others k ne ∙ ap (Dict.get k) backups;
            waiting =
                λ n fresh x. saved-Waiting c t s.0 _ backups (f.saved e fresh.no_final) b n fresh x;
          }

  below-Prepared : (c : Change) (t : Transaction) → Prepared c t (prepare_below lib out c t)
  unfolding prepare_below
  below-Prepared c t =
      Setup-Prepared c t (assert_no_reparse_components lib out c t) _ (no_reparse-Setup lib out c t)
        (files-Prepared c _)

  parent-Prepared : (c : Change) (t : Transaction) → Prepared c t (prepare_parent lib out c t)
  unfolding prepare_parent
  parent-Prepared c t =
      Setup-Prepared c t (ensure_parent_directory lib out c t) _ (ensure_parent-Setup lib out c t)
        (below-Prepared c _)

  prepare_one-Prepared : (c : Change) (t : Transaction) → Prepared c t (prepare_one lib out c t)
  unfolding prepare_one
  prepare_one-Prepared c t =
      Setup-Prepared c t (assert_no_reparse_components lib out c t) _ (no_reparse-Setup lib out c t)
        (parent-Prepared c _)

  -- All temporary files are there, and the changes wait.
  pub record AllPrepared (cs : List Change) (t : Transaction) (r : Step) : Type 0 where
    pub grows : Grows t.tree r.0.tree
    pub applied : r.0.applied ≡ t.applied
    pub prepared : (k : String) → Elsewhere k cs → Dict.get k r.0.prepared ≡ Dict.get k t.prepared
    pub backups : (k : String) → Elsewhere k cs → Dict.get k r.0.backups ≡ Dict.get k t.backups
    pub waiting :
        r.1 ≡ none
        → AllFresh t.prepared t.backups cs
        → AllWaiting r.0.tree r.0.prepared r.0.backups cs

  -- What waits still waits when the others have been prepared.
  Waiting-mono :
      (c : Change) (t t' : Transaction)
      → Grows t.tree t'.tree
      → Dict.get c.relative t'.prepared ≡ Dict.get c.relative t.prepared
      → Dict.get c.relative t'.backups ≡ Dict.get c.relative t.backups
      → Waiting t.tree t.prepared t.backups c
      → Waiting t'.tree t'.prepared t'.backups c
  Waiting-mono c t t' g p b w = record {
    final_saved = p ∙ w.final_saved;
    old_saved = elim w.old_saved [
      | inl (bytes, e, at) ↦ inl (bytes, b ∙ e, g.stays c.target _ at)
      | inr (e, m) ↦ inr (b ∙ e, m)
    ];
  }

  AllFresh-mono :
      (c : Change) (t : Transaction) (r : Step) (cs : List Change)
      → Apart c cs
      → Prepared c t r
      → AllFresh t.prepared t.backups cs
      → AllFresh r.0.prepared r.0.backups cs
  AllFresh-mono c t r [] a p f = tt
  AllFresh-mono c t r (d ∷ ds) a p (x, f, fs) = (
    x,
    record {
      no_final = p.prepared d.relative a.1 ∙ f.no_final;
      no_old = p.backups d.relative a.1 ∙ f.no_old;
    },
    AllFresh-mono c t r ds a.2 p fs,
  )

  Apart-Elsewhere : (c : Change) (cs : List Change) → Apart c cs → Elsewhere c.relative cs
  Apart-Elsewhere c [] a = tt
  Apart-Elsewhere c (d ∷ ds) a = (
    ground (arith, a.1, eq_iff c.relative d.relative, eq_iff d.relative c.relative),
    Apart-Elsewhere c ds a.2,
  )

  pub prepare-AllPrepared :
      (cs : List Change) (t : Transaction) → AllApart cs → AllPrepared cs t (prepare lib out cs t)
  unfolding prepare
  prepare-AllPrepared [] t a = record {
    grows = Grows-refl t.tree;
    applied = refl;
    prepared = λ k e. refl;
    backups = λ k e. refl;
    waiting = λ n f. tt;
  }
  prepare-AllPrepared (c ∷ cs) t a =
      let s : Step = prepare_one lib out c t in
      let p : Prepared c t s = prepare_one-Prepared c t in
      and_then_elim (AllPrepared (c ∷ cs) t) s _
        (λ f e. record {
          grows = p.grows;
          applied = p.applied;
          prepared = λ k x. p.prepared k x.0;
          backups = λ k x. p.backups k x.0;
          waiting = λ n. absurd (ground arith);
        })
        λ e.
          let h = prepare-AllPrepared cs s.0 a.1 in
          record {
            grows = Grows-trans t.tree s.0.tree _ p.grows h.grows;
            applied = h.applied ∙ p.applied;
            prepared = λ k x. h.prepared k x.1 ∙ p.prepared k x.0;
            backups = λ k x. h.backups k x.1 ∙ p.backups k x.0;
            waiting = λ n (x, f, fs). (
              Waiting-mono c s.0 (prepare lib out cs s.0).0 h.grows
                  (h.prepared c.relative (Apart-Elsewhere c cs a.0))
                  (h.backups c.relative (Apart-Elsewhere c cs a.0)) (p.waiting e f x),
              h.waiting n (AllFresh-mono c t s cs a.0 p fs),
            );
          }
