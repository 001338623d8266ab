-- ===== src/Workspace/Sections.antt =====
-- What the diff of the changed files shows (backend/agent/workspace.py, build_aggregate_diff).
use refactor_agent.Common.{
  Option-cases, List-cases, String, ◌≡◌, refl, sym, subst, ◌∙◌, ◌≢◌, ◌⊎◌, inl, inr, Option, none,
  some, List, [], ◌∷◌, ◌++◌, arith,
}
use refactor_agent.Dict
use refactor_agent.Workspace.{
  Files, WorkspaceLibrary, returned-injective, returned_through, returned,
}
use refactor_agent.Workspace.Approval.{
  DiffLibrary, text_of, byte_change, shown, file_diff, diff_sections,
}

-- The text of a file, empty where it does not exist: none if its bytes are not UTF-8.
abbrev pub decoded : DiffLibrary → Option String → Option String
decoded diff none = some ""
decoded diff (some bytes) = diff.decode bytes

-- The lines show each of these paths, in order, with one section that is not empty: the unified diff
-- of the two texts or, where that shows nothing, lines that name the path and the two hashes.
pub data ShowsAll (lib : WorkspaceLibrary) (diff : DiffLibrary) (b f : Files)
    : List String → List String → Type 0 where
  shows_none : ShowsAll lib diff b f [] []
  shows_next :
      (k : String) (ks section more : List String) (old new : String)
      → decoded diff (Dict.get k b) ≡ some old
      → decoded diff (Dict.get k f) ≡ some new
      → (section ≡ diff.unified_diff k old new)
        ⊎ ((diff.unified_diff k old new ≡ [])
            × (section ≡ byte_change lib diff k (Dict.get k b) (Dict.get k f)))
      → section ≢ []
      → ShowsAll lib diff b f ks more
      → ShowsAll lib diff b f (k ∷ ks) (section ++ more)

module _ (lib : WorkspaceLibrary) (diff : DiffLibrary) where
  text_of-decoded : (o : Option String) → decoded diff o ≡ text_of lib diff o
  unfolding text_of
  text_of-decoded none = refl
  text_of-decoded (some bytes) = refl

  file_diff-shows :
      (b f : Files) (k : String) (ks section more : List String)
      → file_diff lib diff k (Dict.get k b) (Dict.get k f) ≡ returned section
      → ShowsAll lib diff b f ks more
      → ShowsAll lib diff b f (k ∷ ks) (section ++ more)
  unfolding file_diff text_of shown byte_change
  file_diff-shows b f k ks section more h rest =
      elim (Option-cases (text_of lib diff (Dict.get k b))) [
        | inl e ↦ absurd (ground (arith, e))
        | inr (old, e) ↦ elim (Option-cases (text_of lib diff (Dict.get k f))) [
          | inl g ↦ absurd (ground (arith, e, g))
          | inr (new, g) ↦
              let got : shown lib diff (diff.unified_diff k old new)
                    (byte_change lib diff k (Dict.get k b) (Dict.get k f))
                  ≡ section =
                returned-injective _ section (ground (arith, e, g)) in
              elim (List-cases (diff.unified_diff k old new)) [
                | inl none_shown ↦
                    let same : byte_change lib diff k (Dict.get k b) (Dict.get k f) ≡ section =
                      rw none_shown at got in
                    shows_next k ks section more old new (text_of-decoded (Dict.get k b) ∙ e)
                      (text_of-decoded (Dict.get k f) ∙ g) (inr (none_shown, sym same))
                      (subst (λ x. x ≢ []) same λ x. absurd (ground (arith, x))) rest
                | inr (line, lines, some_shown) ↦
                    let same : line ∷ lines ≡ section = rw some_shown at got in
                    shows_next k ks section more old new (text_of-decoded (Dict.get k b) ∙ e)
                      (text_of-decoded (Dict.get k f) ∙ g) (inl (sym same ∙ sym some_shown))
                      (subst (λ x. x ≢ []) same λ x. absurd (ground (arith, x))) rest
              ]
        ]
      ]

  pub diff_sections-ShowsAll :
      (b f : Files) (ks lines : List String)
      → diff_sections lib diff b f ks ≡ returned lines
      → ShowsAll lib diff b f ks lines
  unfolding diff_sections
  diff_sections-ShowsAll b f [] lines h =
      subst (ShowsAll lib diff b f []) (returned-injective [] lines h) shows_none
  diff_sections-ShowsAll b f (k ∷ ks) lines h =
      let (section, e, h2) =
        returned_through (file_diff lib diff k (Dict.get k b) (Dict.get k f)) _ lines h in
      let (more, e2, h3) = returned_through (diff_sections lib diff b f ks) _ lines h2 in
      subst (ShowsAll lib diff b f (k ∷ ks)) (returned-injective (section ++ more) lines h3)
        (file_diff-shows b f k ks section more e (diff_sections-ShowsAll b f ks more e2))
