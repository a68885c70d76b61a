-- ===== src/Dependencies/Sources.antt =====
-- host/src/dependencies.effect.ts: requests, results and errors of a resolution, and the services
-- that it asks for.
use akuapkg.Common.{ℕ, Text, Bool, false, Option, List}
use akuapkg.Common.Result.{Result}
use akuapkg.Lock.{LockedPackage}
use akuapkg.Manifest.{Dependency, Problem}
use akuapkg.HostFs.{FsError, HostFs}
use akuapkg.Snapshot.{Snapshot}
use akuapkg.Snapshot.Load.{LoadError}
use akuapkg.Dependencies.{LockRecord}
use akuapkg.Dependencies.Kinds.{DependencyKind}

pub data DependencyCode : Type 0 where
  dep_resolve path_escapes crds_invalid crds_stale cosign_verify cosign_sig_missing : DependencyCode
  -- the code of an OCI error
  oci_code : Text → DependencyCode

-- one constructor for each message, with what it interpolates but the dependency's name
pub data DependencyMessage : Type 0 where
  replace_rejected : DependencyMessage
  absolute_path path_missing not_a_directory link_escapes : Text → DependencyMessage
  leaves_workspace : Text → Text → Text → DependencyMessage
  unsigned_vendor unsigned_crds : Text → Text → DependencyMessage
  bad_crds : Text → Text → DependencyMessage
  unloaded_crds : LoadError → DependencyMessage
  stale_crds : Text → Text → Text → Text → Text → Text → DependencyMessage
  fetch_failed not_offline : Text → DependencyMessage
  unreadable_key : Text → Text → DependencyMessage
  bad_key : Text → DependencyMessage

pub record DependencyUnresolved : Type 0 where
  pub dependency : Text
  pub code : DependencyCode
  pub drift : Bool
  pub message : DependencyMessage

pub data ResolveError : Type 0 where
  unresolved : DependencyUnresolved → ResolveError
  platform : FsError → ResolveError
  manifest_invalid : Problem → ResolveError

abbrev pub unresolved_with : Text → DependencyCode → DependencyMessage → ResolveError
unresolved_with name code message =
    unresolved (record { dependency = name; code = code; drift = false; message = message })

-- the error of a service
pub record FetchError : Type 0 where
  pub code : Text
  pub message : Text
  pub offline : Bool
  pub drift : Bool

pub record Pulled : Type 0 where
  pub directory : Text
  pub digest : Text
  pub signature : Option Text

pub record PullRequest : Type 0 where
  pub reference : Text
  pub version : Text
  pub pin : Option Text
  pub offline : Bool
  pub cosign_public_key : Option Text
  pub locked_signature : Option Text
  pub any_archive : Bool

pub record Fetched : Type 0 where
  pub directory : Text
  -- the digest, or a git commit
  pub digest : Text
  -- the version that a Helm requirement selected
  pub version : Text

pub record HelmRequest : Type 0 where
  pub repository : Text
  pub chart : Text
  pub version : Text
  pub pin : Option Text
  pub offline : Bool

pub data GitRef : Type 0 where
  tag_ref rev_ref : Text → GitRef

pub record GitRequest : Type 0 where
  pub address : Text
  pub ref : GitRef
  pub pin : Option Text
  pub offline : Bool

pub record UrlRequest : Type 0 where
  pub address : Text
  pub pin : Option Text
  pub offline : Bool

-- the services, and what the platform gives
pub record World : Type 0 where
  pub fs : HostFs
  pub encode : Text → List ℕ
  pub decode : List ℕ → Text
  pub hash : List ℕ → Text
  pub cli_name : Text
  pub variable : Text → Option Text
  pub pull : PullRequest → Result FetchError Pulled
  pub fetch_helm : HelmRequest → Result FetchError Fetched
  pub fetch_git : GitRequest → Result FetchError Fetched
  pub fetch_url : UrlRequest → Result FetchError Fetched

pub data PinScope : Type 0 where
  all_pins oci_pins no_pins : PinScope

pub record ResolveOptions : Type 0 where
  pub offline : Bool
  pub verify_signatures : Option Bool
  pub pins : Option PinScope
  pub regenerate_crds : Option Bool

pub record DependencyRequest : Type 0 where
  pub workspace : Text
  pub name : Text
  pub dependency : Dependency
  pub pinned : Option LockedPackage
  pub locked : Option LockedPackage
  pub reject_replace : Bool
  pub cosign_public_key : Option Text
  pub trusted_signature : Option Text
  pub options : ResolveOptions

pub record CrdSource : Type 0 where
  pub selector : Text
  pub generated : Option Snapshot

pub record DependencyTree : Type 0 where
  pub name : Text
  pub kind : DependencyKind
  pub root : Text
  pub files : Snapshot
  pub digest : Text

-- a `ResolvedDependency` without its `crds`
pub record SourceTree : Type 0 where
  pub tree : DependencyTree
  pub digest : Text
  pub locked : LockRecord

pub record ResolvedDependency : Type 0 where
  pub name : Text
  pub kind : DependencyKind
  pub root : Text
  pub files : Snapshot
  pub digest : Text
  pub locked : LockRecord
  pub crds : Option CrdSource
