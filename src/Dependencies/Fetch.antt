-- ===== src/Dependencies/Fetch.antt =====
-- host/src/dependencies.effect.ts: `resolveSourceTree`, the files of a dependency from its source.
use akuapkg.Common.{
  Text, text, text_eq, starts_with, drop, Bool, false, not, ◌&&◌, Option, none, some, is_some, [],
  ◌++◌, if◌then◌else◌,
}
use akuapkg.Common.Result.{Result, ok, err, ◌>>=◌, ◌>>◌, fail_if}
use akuapkg.HostFs.{map_error, is_directory}
use akuapkg.Lock.{LockedPackage}
use akuapkg.Manifest.{DependencySpec, dependency_spec, crd_selector}
use akuapkg.Dependencies.{LockRecord, lock_record, as_vendored, is_helm, is_oci}
use akuapkg.Dependencies.Sources.{
  World, DependencyRequest, DependencyTree, SourceTree, ResolveError, unresolved, unresolved_with,
  FetchError, PullRequest, GitRef, DependencyCode, dep_resolve, cosign_sig_missing, oci_code,
  replace_rejected, unsigned_vendor, fetch_failed, not_offline,
}
use akuapkg.Dependencies.Trees.{from_directory, from_workspace_path, vendored_at}

abbrev pub spec_of : DependencyRequest → DependencySpec
spec_of request = dependency_spec request.dependency

-- `{ ...locked, signature }`
abbrev pub with_signature : LockRecord → Option Text → LockRecord
with_signature locked signature = record locked { signature = signature }

abbrev pub signature_of : Option LockedPackage → Option Text
signature_of none = none
signature_of (some entry) = entry.signature

abbrev pub digest_of : Option LockedPackage → Option Text
digest_of none = none
digest_of (some entry) = some entry.digest

abbrev pub is_some_text : Option Text → Text → Bool
is_some_text none t = false
is_some_text (some s) t = text_eq s t

-- the digest of a tree that `vendor add` pinned, else none
unfoldable pub source_digest : Option LockedPackage → Text → Option Text
source_digest none vendor_digest = none
source_digest (some entry) vendor_digest =
    if is_some_text entry.vendor_digest vendor_digest then some entry.digest else none

abbrev pub own_digest : DependencySpec → Text → Text
own_digest (DependencySpec.git g tag rev) digest = text "git:" ++ drop 7 digest
own_digest spec digest = digest

abbrev pub vendored_digest : DependencyRequest → DependencyTree → Text
vendored_digest request tree = elim (source_digest request.locked tree.digest) [
  | some digest ↦ digest
  | none ↦ own_digest (spec_of request) tree.digest
]

-- `entry?.signature === trusted && entry.digest === digest`
unfoldable pub is_vouched : Option LockedPackage → Text → Text → Bool
is_vouched none trusted digest = false
is_vouched (some entry) trusted digest =
    is_some_text entry.signature trusted && text_eq entry.digest digest

abbrev pub sourced : DependencyTree → Text → LockRecord → SourceTree
sourced tree digest locked = record { tree = tree; digest = digest; locked = locked }

-- the signature that a vendored copy must have, if it is an OCI dependency with a key configured
abbrev pub needed_signature : DependencyRequest → Option Text
needed_signature request = if is_oci (spec_of request) then request.trusted_signature else none

abbrev pub git_ref : Option Text → Option Text → GitRef
git_ref (some tag) rev = GitRef.tag_ref tag
git_ref none (some rev) = GitRef.rev_ref rev
git_ref none none = GitRef.rev_ref []

-- the pinned commit of a git dependency
unfoldable pub commit_pin : Option Text → Option Text
commit_pin none = none
commit_pin (some digest) = if starts_with digest (text "git:") then some (drop 4 digest) else none

abbrev pub fetch_error : Text → DependencyCode → Bool → FetchError → ResolveError
fetch_error name code drift e = unresolved (record {
  dependency = name;
  code = code;
  drift = drift;
  message = if e.offline then not_offline e.message else fetch_failed e.message;
})

module _ (world : World) where
  unfoldable pub replaced_tree : DependencyRequest → Text → Bool → Result ResolveError SourceTree
  replaced_tree request target scoped = do
    fail_if request.reject_replace (unresolved_with request.name dep_resolve replace_rejected)
    tree ← from_workspace_path world request.workspace request.name target scoped
    ok (
        sourced tree tree.digest (
          lock_record (spec_of request)
            (record { git_fallback = text "HEAD"; replaced = some target; helm_version = none })))

  unfoldable pub vouched_tree : DependencyRequest → DependencyTree → Result ResolveError SourceTree
  vouched_tree request tree =
      let digest = vendored_digest request tree in
      let locked = lock_record (spec_of request) as_vendored in
      elim (needed_signature request) [
        | none ↦ ok (sourced tree digest locked)
        | some trusted ↦
            if is_vouched request.locked trusted digest
            then ok (sourced tree digest (with_signature locked (some trusted)))
            else err (
                unresolved_with request.name cosign_sig_missing
                  (unsigned_vendor tree.digest world.cli_name))
      ]

  abbrev pub pull_request : DependencyRequest → Text → Text → PullRequest
  pull_request request reference version = record {
    reference = reference;
    version = version;
    pin = digest_of request.pinned;
    offline = request.options.offline;
    cosign_public_key = request.cosign_public_key;
    locked_signature = signature_of request.pinned;
    any_archive = is_some (crd_selector request.dependency);
  }

  -- the switch on the kind of source
  unfoldable pub fetched_tree :
      DependencyRequest → Bool → DependencySpec → Result ResolveError SourceTree
  fetched_tree request scoped (DependencySpec.path p) = do
    tree ← from_workspace_path world request.workspace request.name p scoped
    ok (sourced tree tree.digest (lock_record (spec_of request) as_vendored))
  fetched_tree request scoped (DependencySpec.oci reference version) = do
    pulled ←
        map_error (λ e. fetch_error request.name (oci_code e.code) e.drift e)
          (world.pull (pull_request request reference version))
    tree ← from_directory world request.name pulled.directory scoped
    ok (
        sourced tree pulled.digest
          (with_signature (lock_record (spec_of request) as_vendored) pulled.signature))
  fetched_tree request scoped (DependencySpec.helm repo chart version) = do
    fetched ← map_error (fetch_error request.name dep_resolve false) (
        world.fetch_helm (record {
          repository = repo;
          chart = chart;
          version = version;
          pin = digest_of request.pinned;
          offline = request.options.offline;
        }))
    tree ← from_directory world request.name fetched.directory scoped
    ok (
        sourced tree fetched.digest (
          lock_record (spec_of request)
            (record as_vendored { helm_version = some fetched.version })))
  fetched_tree request scoped (DependencySpec.git address tag rev) = do
    fetched ← map_error (fetch_error request.name dep_resolve false) (
        world.fetch_git (record {
          address = address;
          ref = git_ref tag rev;
          pin = commit_pin (digest_of request.pinned);
          offline = request.options.offline;
        }))
    tree ← from_directory world request.name fetched.directory scoped
    ok (sourced tree (text "git:" ++ fetched.digest) (lock_record (spec_of request) as_vendored))
  fetched_tree request scoped (DependencySpec.url address) = do
    fetched ←
        map_error (λ e. fetch_error request.name dep_resolve e.drift e)
          (world.fetch_url (record {
            address = address;
            pin = digest_of request.pinned;
            offline = request.options.offline;
          }))
    tree ← from_directory world request.name fetched.directory scoped
    ok (sourced tree fetched.digest (lock_record (spec_of request) as_vendored))

  abbrev pub vendored_tree : DependencyRequest → Bool → Result ResolveError SourceTree
  vendored_tree request scoped = do
    tree ←
        from_directory world request.name (vendored_at world request.workspace request.name) scoped
    vouched_tree request tree

  unfoldable pub unreplaced_tree : DependencyRequest → Bool → Result ResolveError SourceTree
  unreplaced_tree request scoped =
      if not (is_helm (spec_of request))
        && is_directory world.fs (vendored_at world request.workspace request.name)
      then vendored_tree request scoped
      else fetched_tree request scoped (spec_of request)

  abbrev pub replaced_or_not :
      DependencyRequest → Bool → Option Text → Result ResolveError SourceTree
  replaced_or_not request scoped (some target) = replaced_tree request target scoped
  replaced_or_not request scoped none = unreplaced_tree request scoped

  unfoldable pub resolve_source_tree : DependencyRequest → Bool → Result ResolveError SourceTree
  resolve_source_tree request scoped = replaced_or_not request scoped request.dependency.replace
