-- ===== src/Dependencies/Resolve.antt =====
-- host/src/dependencies.effect.ts: `resolveDependency`. The parser of a provenance file is an argument.
use akuapkg.Common.{
  Text, text_eq, Bool, true, false, not, ◌&&◌, ◌||◌, Option, none, some, is_none, if◌then◌else◌,
}
use akuapkg.Common.Result.{Result, ok, ◌>>=◌, ◌>>◌, fail_if}
use akuapkg.HostFs.{map_error}
use akuapkg.Lock.{LockedPackage}
use akuapkg.Manifest.{crd_selector}
use akuapkg.Snapshot.Digest.{tree_digest}
use akuapkg.Dependencies.{lock_record, as_vendored, is_helm, is_oci, is_path}
use akuapkg.Dependencies.Kinds.{DependencyKind, crd_source}
use akuapkg.Dependencies.Sources.{
  World, DependencyRequest, SourceTree, ResolvedDependency, CrdSource, ResolveError,
  unresolved_with, dep_resolve, crds_invalid, crds_stale, cosign_sig_missing, bad_crds,
  unloaded_crds, stale_crds, unsigned_crds,
}
use akuapkg.Dependencies.Crds.{
  Provenance, GeneratedTree, CrdsProblem, crds_unreadable, crds_load, read_generated_crds,
}
use akuapkg.Dependencies.Fetch.{
  spec_of, signature_of, is_some_text, with_signature, needed_signature, resolve_source_tree,
}

-- `error._tag === "CrdsInvalid" ? "E_CRDS_INVALID" : "E_DEP_RESOLVE"`, and the messages
abbrev pub crds_failed : Text → CrdsProblem → ResolveError
crds_failed name (crds_unreadable source cause) =
    unresolved_with name crds_invalid (bad_crds source cause)
crds_failed name (crds_load e) = unresolved_with name dep_resolve (unloaded_crds e)

-- does the lock's entry record these bytes and these files?
unfoldable pub is_recorded : Option LockedPackage → Text → Text → Bool
is_recorded none digest files_digest = false
is_recorded (some entry) digest files_digest =
    text_eq entry.digest digest && is_some_text entry.crds_digest files_digest

abbrev pub is_true : Option Bool → Bool
is_true none = false
is_true (some b) = b

-- may the generated schemas stand for the source?
abbrev pub uses_generated : DependencyRequest → Bool
uses_generated request =
    not (is_path (spec_of request))
    && is_none request.dependency.replace
    && not (is_true request.options.regenerate_crds)

abbrev pub with_crds : SourceTree → DependencyKind → Option CrdSource → ResolvedDependency
with_crds source kind crds = record {
  name = source.tree.name;
  kind = kind;
  root = source.tree.root;
  files = source.tree.files;
  digest = source.digest;
  locked = source.locked;
  crds = crds;
}

-- generated from something else than what is declared
abbrev pub is_changed : DependencyRequest → Text → Provenance → Bool
is_changed request selector provenance =
    let locked = lock_record (spec_of request) as_vendored in
    not (text_eq provenance.dependency request.name)
    || not (text_eq provenance.source locked.source)
    || (not (is_helm (spec_of request)) && not (text_eq provenance.version locked.version))
    || not (text_eq provenance.crds selector)

module _ (world : World) where
  -- the digest of the schemas as they are
  abbrev pub files_digest : GeneratedTree → Text
  files_digest tree = tree_digest world.encode world.hash tree.files

  abbrev pub is_stale : DependencyRequest → Text → GeneratedTree → Bool
  is_stale request selector tree =
      is_changed request selector tree.provenance
      || not (is_recorded request.locked tree.provenance.digest (files_digest tree))

  -- the signature that the lock records, if one is needed
  abbrev pub is_signed : DependencyRequest → Bool
  is_signed request = elim (needed_signature request) [
    | none ↦ true
    | some trusted ↦ is_some_text (signature_of request.locked) trusted
  ]

  abbrev pub generated_dependency : DependencyRequest → Text → GeneratedTree → ResolvedDependency
  generated_dependency request selector tree = record {
    name = request.name;
    kind = crd_source;
    root = tree.directory;
    files = tree.files;
    digest = tree.provenance.digest;
    locked =
        with_signature
          (record (lock_record (spec_of request) as_vendored) { version = tree.provenance.version })
          (signature_of request.locked);
    crds = some (record { selector = selector; generated = some tree.files });
  }

  unfoldable pub from_generated :
      DependencyRequest → Text → GeneratedTree → Result ResolveError ResolvedDependency
  from_generated request selector tree = do
    fail_if (is_stale request selector tree) (
        unresolved_with request.name crds_stale (
          stale_crds tree.directory tree.provenance.source tree.provenance.version
            tree.provenance.crds tree.provenance.digest world.cli_name))
    fail_if (not (is_signed request)) (
        unresolved_with request.name cosign_sig_missing
          (unsigned_crds tree.directory world.cli_name))
    ok (generated_dependency request selector tree)

  unfoldable pub from_source : DependencyRequest → Text → Result ResolveError ResolvedDependency
  from_source request selector = do
    source ←
        resolve_source_tree world request (is_oci (spec_of request) || is_helm (spec_of request))
    ok (with_crds source crd_source (some (record { selector = selector; generated = none })))

  module _ (parse_provenance : Text → Result Text Provenance) where
    abbrev pub generated_tree : DependencyRequest → Result ResolveError (Option GeneratedTree)
    generated_tree request =
        if uses_generated request
        then map_error (crds_failed request.name) (
            read_generated_crds world.fs world.decode parse_provenance request.workspace
              request.name)
        else ok none

    abbrev pub from_either :
        DependencyRequest → Text → Option GeneratedTree → Result ResolveError ResolvedDependency
    from_either request selector none = from_source request selector
    from_either request selector (some tree) = from_generated request selector tree

    unfoldable pub resolve_dependency : DependencyRequest → Result ResolveError ResolvedDependency
    resolve_dependency request = elim (crd_selector request.dependency) [
      | none ↦ do
        source ← resolve_source_tree world request true
        ok (with_crds source source.tree.kind none)
      | some selector ↦ do
        generated ← generated_tree request
        from_either request selector generated
    ]
