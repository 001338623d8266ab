-- ===== src/Workspace/Preparation.antt =====
-- What the preparation leaves: temporary files with the final and the old bytes, and new
-- directories; no file of the tree is touched.
use refactor_agent.Common.{
  Bool-cases, Option-cases, String, ◌≡◌, refl, ap, ◌∙◌, ◌⊎◌, inl, inr, false, Option, none, some,
  List, [], ◌∷◌, arith, ◌==◌, eq_iff,
}
use refactor_agent.Dict
use refactor_agent.Workspace.{
  Node, Tree, Files, WorkspaceLibrary, regular, directory, make_directory,
}
use refactor_agent.Workspace.Targets.{TargetState, Change, has_reparse_component, missing, file}
use refactor_agent.Workspace.Transaction.{
  Surroundings, Transaction, Step, and_then, assert_no_reparse_components, make_directory_at,
  make_directories, ensure_parent_directory,
}
use refactor_agent.Workspace.Commits.{and_then_elim}

-- The bytes of the file at a path: directories and missing files look alike.
abbrev pub bytes_of : Option Node → Option String
bytes_of (some (regular bytes)) = some bytes
bytes_of _ = none

unfoldable pub file_at : String → Tree → Option String
file_at k tree = bytes_of (Dict.get k tree)

-- The second tree has the same files, and what was there is still there.
pub record Grows (tree tree' : Tree) : Type 0 where
  pub stays : (k : String) (n : Node) → Dict.get k tree ≡ some n → Dict.get k tree' ≡ some n
  pub files : (k : String) → file_at k tree' ≡ file_at k tree

pub Grows-refl : (tree : Tree) → Grows tree tree
Grows-refl tree = record { stays = λ k n h. h; files = λ k. refl }

pub Grows-trans : (a b c : Tree) → Grows a b → Grows b c → Grows a c
Grows-trans a b c g h = record {
  stays = λ k n e. h.stays k n (g.stays k n e);
  files = λ k. h.files k ∙ g.files k;
}

-- A change that waits: its final bytes, and the old bytes where a file is expected, are saved.
pub record Waiting (tree : Tree) (prepared backups : Files) (c : Change) : Type 0 where
  pub final_saved : Dict.get c.relative prepared ≡ c.final
  pub old_saved :
      ((bytes : String) × (Dict.get c.relative backups ≡ some bytes)
        × (Dict.get c.target tree ≡ some (regular bytes)))
      ⊎ ((Dict.get c.relative backups ≡ none) × (c.expected ≡ missing))

abbrev pub AllWaiting : Tree → Files → Files → List Change → Type 0
AllWaiting tree prepared backups [] = Unit
AllWaiting tree prepared backups (c ∷ cs) =
    Waiting tree prepared backups c × AllWaiting tree prepared backups cs

-- The change has no temporary file yet, and expects a file or none.
pub record IsFresh (prepared backups : Files) (c : Change) : Type 0 where
  pub no_final : Dict.get c.relative prepared ≡ none
  pub no_old : Dict.get c.relative backups ≡ none

abbrev pub IsExpectation : TargetState → Type 0
IsExpectation s = (s ≡ missing) ⊎ ((hash : String) × (s ≡ file hash))

abbrev pub AllFresh : Files → Files → List Change → Type 0
AllFresh prepared backups [] = Unit
AllFresh prepared backups (c ∷ cs) =
    IsExpectation c.expected × IsFresh prepared backups c × AllFresh prepared backups cs

-- No change is of the file `k`.
abbrev pub Elsewhere : String → List Change → Type 0
Elsewhere k [] = Unit
Elsewhere k (c ∷ cs) = ((c.relative == k) ≡ false) × Elsewhere k cs

-- A step before the temporary files are written.
pub record Setup (t t' : Transaction) : Type 0 where
  pub grows : Grows t.tree t'.tree
  pub applied : t'.applied ≡ t.applied
  pub prepared : t'.prepared ≡ t.prepared
  pub backups : t'.backups ≡ t.backups

pub record Prepared (c : Change) (t : Transaction) (r : Step) : Type 0 where
  pub grows : Grows t.tree r.0.tree
  pub applied : r.0.applied ≡ t.applied
  pub prepared :
      (k : String) → (c.relative == k) ≡ false → Dict.get k r.0.prepared ≡ Dict.get k t.prepared
  pub backups :
      (k : String) → (c.relative == k) ≡ false → Dict.get k r.0.backups ≡ Dict.get k t.backups
  pub waiting :
      r.1 ≡ none
      → IsFresh t.prepared t.backups c
      → IsExpectation c.expected
      → Waiting r.0.tree r.0.prepared r.0.backups c

pub Setup-Prepared :
    (c : Change) (t : Transaction) (s : Step) (next : Transaction → Step)
    → Setup t s.0
    → Prepared c s.0 (next s.0)
    → Prepared c t (and_then s next)
Setup-Prepared c t s next h g =
    and_then_elim (Prepared c t) s next
      (λ f e. record {
        grows = h.grows;
        applied = h.applied;
        prepared = λ k ne. ap (Dict.get k) h.prepared;
        backups = λ k ne. ap (Dict.get k) h.backups;
        waiting = λ n. absurd (ground arith);
      })
      λ e. record {
        grows = Grows-trans t.tree s.0.tree _ h.grows g.grows;
        applied = g.applied ∙ h.applied;
        prepared = λ k ne. g.prepared k ne ∙ ap (Dict.get k) h.prepared;
        backups = λ k ne. g.backups k ne ∙ ap (Dict.get k) h.backups;
        waiting = λ n fresh x.
            g.waiting n
              (record {
                no_final = ap (Dict.get c.relative) h.prepared ∙ fresh.no_final;
                no_old = ap (Dict.get c.relative) h.backups ∙ fresh.no_old;
              })
              x;
      }

Setup-refl : (t : Transaction) → Setup t t
Setup-refl t = record { grows = Grows-refl t.tree; applied = refl; prepared = refl; backups = refl }

Setup-trans : (a b c : Transaction) → Setup a b → Setup b c → Setup a c
Setup-trans a b c g h = record {
  grows = Grows-trans a.tree b.tree c.tree g.grows h.grows;
  applied = h.applied ∙ g.applied;
  prepared = h.prepared ∙ g.prepared;
  backups = h.backups ∙ g.backups;
}

Grows-directory :
    (d : String) (tree : Tree) → Dict.get d tree ≡ none → Grows tree (Dict.put d directory tree)
unfolding file_at
Grows-directory d tree e = record {
  stays = λ k n h. rw Dict.get-put (ground (arith, eq_iff d k));
  files = λ k. rw Dict.get-put (ground (arith, eq_iff d k));
}

module _ (lib : WorkspaceLibrary) (out : Surroundings) where
  make_directory-Setup : (d : String) (t : Transaction) → Setup t (make_directory_at lib out d t).0
  unfolding make_directory_at
  make_directory-Setup d t = elim (Option-cases (Dict.get d t.tree)) [
    | inr (node, e) ↦ rw (make_directory_at, e) (Setup-refl t)
    | inl e ↦ elim (Bool-cases (out.fails (make_directory d))) [
      | inl f ↦ rw (make_directory_at, e, f) (Setup-refl t)
      | inr f ↦
          rw (make_directory_at, e, f)
            record {
              grows = Grows-directory d t.tree e;
              applied = refl;
              prepared = refl;
              backups = refl;
            }
    ]
  ]

  make_directories-Setup :
      (ds : List String) (t : Transaction) → Setup t (make_directories lib out ds t).0
  unfolding make_directories
  make_directories-Setup [] t = Setup-refl t
  make_directories-Setup (d ∷ ds) t =
      and_then_elim (λ s. Setup t s.0) (make_directory_at lib out d t) _
        (λ f e. make_directory-Setup d t)
        λ e. Setup-trans t _ _ (make_directory-Setup d t) (make_directories-Setup ds _)

  pub no_reparse-Setup :
      (c : Change) (t : Transaction) → Setup t (assert_no_reparse_components lib out c t).0
  unfolding assert_no_reparse_components
  no_reparse-Setup c t = elim (Bool-cases (has_reparse_component lib t.tree c.target)) [
    | inl e ↦ rw e (Setup-refl t)
    | inr e ↦ rw e (Setup-refl t)
  ]

  pub ensure_parent-Setup :
      (c : Change) (t : Transaction) → Setup t (ensure_parent_directory lib out c t).0
  unfolding ensure_parent_directory
  ensure_parent-Setup c t = make_directories-Setup _ t
