-- ===== src/Workspace/Manifest.antt =====
-- backend/agent/workspace.py, the content-addressed list of the files of a snapshot.
use refactor_agent.Common.{sorted, String, none, some, List, [], ◌∷◌}
use refactor_agent.Dict
use refactor_agent.Dict.{Dict}
use refactor_agent.Workspace.{
  Tree, Files, WorkspaceFileSnapshot, WorkspaceLibrary, Outcome, keys, iter_snapshot_files,
  case_conflict, returned, raised,
}
use refactor_agent.Workspace.Targets.{normalize_snapshot_path}

-- `WorkspaceSnapshot`, without its constant version.
pub record WorkspaceSnapshot : Type 0 where
  pub files : List WorkspaceFileSnapshot
  pub digest : String

module _ (lib : WorkspaceLibrary) where
  open lib use {sha256, casefold, byte_length, dumps}

  unfoldable snapshot_of : String → String → WorkspaceFileSnapshot
  snapshot_of path content = record {
    path = path;
    size_bytes = byte_length content;
    sha256 = sha256 content;
  }

  -- `files_by_identity`, from the files seen so far.
  unfoldable by_identity : Files → Dict WorkspaceFileSnapshot → Outcome (Dict WorkspaceFileSnapshot)
  unfolding normalize_snapshot_path snapshot_of
  by_identity [] seen = returned seen
  by_identity ((relative_path, content) ∷ entries) seen =
      elim (normalize_snapshot_path lib relative_path) [
        | raised f ↦ raised f
        | returned canonical ↦ elim (Dict.get (casefold canonical) seen) [
          | some other ↦ raised (case_conflict canonical)
          | none ↦
              by_identity entries
                (Dict.put (casefold canonical) (snapshot_of canonical content) seen)
        ]
      ]

  unfoldable pick : Dict WorkspaceFileSnapshot → List String → List WorkspaceFileSnapshot
  pick seen [] = []
  pick seen (k ∷ ks) =
      let rest = pick seen ks in
      elim (Dict.get k seen) [ none ↦ rest | some snapshot ↦ snapshot ∷ rest ]

  -- The snapshots in the order of their identities, which are unique.
  unfoldable manifest_of : Dict WorkspaceFileSnapshot → WorkspaceSnapshot
  unfolding pick sorted keys
  manifest_of seen =
      let files = pick seen (sorted (keys seen)) in
      record { files = files; digest = sha256 (dumps files) }

  unfoldable build_snapshot_manifest : Files → Outcome WorkspaceSnapshot
  unfolding by_identity manifest_of
  build_snapshot_manifest entries = elim (by_identity entries []) [
    | raised f ↦ raised f
    | returned seen ↦ returned (manifest_of seen)
  ]

  -- `build_workspace_snapshot`, of one snapshot of the run.
  unfoldable pub build_workspace_snapshot : Tree → Outcome WorkspaceSnapshot
  unfolding iter_snapshot_files build_snapshot_manifest
  build_workspace_snapshot tree = elim (iter_snapshot_files lib tree) [
    | raised f ↦ raised f
    | returned files ↦ build_snapshot_manifest files
  ]
