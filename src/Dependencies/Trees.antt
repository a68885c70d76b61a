-- ===== src/Dependencies/Trees.antt =====
-- host/src/dependencies.effect.ts: the trees of directories and of paths in the workspace.
use akuapkg.Common.{Text, text, text_eq, Bool, true, not, [], ◌∷◌, if◌then◌else◌}
use akuapkg.Common.Result.{Result, ok, ◌>>=◌, ◌>>◌, fail_if}
use akuapkg.HostFs.{FsError, map_error, is_directory, is_inside}
use akuapkg.Snapshot.{Snapshot, subtree}
use akuapkg.Snapshot.Load.{LoadError, load_snapshot}
use akuapkg.Snapshot.Digest.{tree_digest}
use akuapkg.Dependencies.Kinds.{detect_kind}
use akuapkg.Dependencies.Sources.{
  World, DependencyTree, ResolveError, platform, unresolved_with, dep_resolve, path_escapes,
  absolute_path, path_missing, not_a_directory, link_escapes, leaves_workspace,
}

abbrev pub load_failed : Text → LoadError → ResolveError
load_failed name (LoadError.path_escape p) = unresolved_with name path_escapes (link_escapes p)
load_failed name (LoadError.platform e) = platform e

module _ (world : World) where
  abbrev pub tree_at : Text → Text → Bool → Snapshot → DependencyTree
  tree_at name directory scoped files =
      let (kind, detected) = detect_kind files in
      let prefix = if scoped then detected else [] in
      record {
        name = name;
        kind = kind;
        root =
            if text_eq prefix [] then directory else world.fs.join_path (directory ∷ prefix ∷ []);
        files = subtree files prefix;
        digest = tree_digest world.encode world.hash files;
      }

  unfoldable pub from_directory : Text → Text → Bool → Result ResolveError DependencyTree
  from_directory name directory scoped = do
    files ← map_error (load_failed name) (load_snapshot world.fs directory)
    ok (tree_at name directory scoped files)

  abbrev pub target_failed : Text → Text → FsError → ResolveError
  target_failed name joined e =
      if e.is_not_found then unresolved_with name dep_resolve (path_missing joined) else platform e

  -- the checks of a resolved target
  unfoldable pub checked_target : Text → Text → Text → Text → Result ResolveError Text
  checked_target name requested root target = do
    fail_if (not (is_inside world.fs root target))
        (unresolved_with name path_escapes (leaves_workspace requested target root))
    fail_if (not (is_directory world.fs target))
        (unresolved_with name dep_resolve (not_a_directory target))
    ok target

  unfoldable pub workspace_target : Text → Text → Text → Result ResolveError Text
  workspace_target workspace name requested =
      let joined = world.fs.join_path (workspace ∷ requested ∷ []) in
      do
        fail_if (world.fs.is_absolute requested)
            (unresolved_with name path_escapes (absolute_path requested))
        root ← map_error platform (world.fs.real_path workspace)
        target ← map_error (target_failed name joined) (world.fs.real_path joined)
        checked_target name requested root target

  unfoldable pub from_workspace_path :
      Text → Text → Text → Bool → Result ResolveError DependencyTree
  from_workspace_path workspace name requested scoped = do
    target ← workspace_target workspace name requested
    from_directory name target scoped

  abbrev pub vendored_at : Text → Text → Text
  vendored_at workspace name = world.fs.join_path (workspace ∷ text ".akua/vendor" ∷ name ∷ [])

  unfoldable pub path_dependency_tree : Text → Text → Text → Result ResolveError DependencyTree
  path_dependency_tree workspace name requested =
      if is_directory world.fs (vendored_at workspace name)
      then from_directory name (vendored_at workspace name) true
      else from_workspace_path workspace name requested true
