-- ===== src/Dependencies.antt =====
-- host/src/dependencies.effect.ts: the resolution of a package's dependencies. The network sources
-- are the services that the code asks for, an interface; the file system is akuapkg.HostFs.
pub mod Kinds
pub mod Sources
pub mod Trees
pub mod Crds
pub mod Fetch
pub mod Resolve
pub mod Package
pub mod GitUrls
pub mod Marked
pub mod Replaced
pub mod Complete
pub mod Trusted
pub mod Signed
mod Tests
use akuapkg.Common.{
  ℕ, zero, suc, ◌+◌, ◌-◌, Text, text, text_eq, includes, after, Bool, true, false, not, ◌&&◌, ◌||◌,
  Option, none, some, or_else, List, [], ◌∷◌, ◌++◌, find, length, take, ◌==◌, if◌then◌else◌,
}
use akuapkg.Lock.{LockedPackage}
use akuapkg.Manifest.{Dependency, DependencySpec, dependency_spec}
use akuapkg.HostAuth.{authority, after_last_at, without_slashes}

-- what stands before and after the last `:`
unfoldable pub cut_last : ℕ → Text → Option (Text × Text)
cut_last c [] = none
cut_last c (a ∷ s) = elim (cut_last c s) [
  | some halves ↦ some (a ∷ halves.0, halves.1)
  | none ↦ if a == c then some ([], s) else none
]

abbrev pub is_default_port : Text → Text → Bool
is_default_port scheme port =
    (text_eq scheme (text "https") && text_eq port (text "443"))
    || (text_eq scheme (text "http") && text_eq port (text "80"))

unfoldable pub without_port : Text → Text → Text
without_port scheme host = elim (cut_last b':' host) [
  | none ↦ host
  | some halves ↦ if is_default_port scheme halves.1 then halves.0 else host
]

-- `endsWith(".git")` and the slice before it
unfoldable pub without_git : Text → Text
without_git [] = []
without_git (a ∷ s) =
    let rest = without_git s in if text_eq (a ∷ s) (text ".git") then [] else a ∷ rest

-- `withoutUser`: nothing up to the last `@` of the authority
abbrev pub without_user : Text → Text
without_user rest = after_last_at (authority rest).0 ++ (authority rest).1

abbrev pub trimmed_url : Text → Text → Text
trimmed_url scheme rest =
    let (host, path) = authority rest in
    without_slashes
      (without_git (without_slashes (scheme ++ (text "://" ++ (without_port scheme host ++ path)))))

unfoldable pub canonical_git_url : Text → Text
canonical_git_url url = elim (after (text "://") url) [
  | none ↦ url
  | some rest ↦ trimmed_url (take (length url - (length rest + 3)) url) (without_user rest)
]

pub data RecordKind : Type 0 where
  path_record oci_record git_record helm_record url_record : RecordKind

pub record LockRecord : Type 0 where
  pub kind : RecordKind
  pub source : Text
  pub version : Text
  pub replaced : Option Text
  pub signature : Option Text

abbrev or_default : Text → Option Text → Text
or_default default none = default
or_default default (some s) = s

pub record RecordOptions : Type 0 where
  pub git_fallback : Text
  pub replaced : Option Text
  pub helm_version : Option Text

abbrev unsigned : RecordKind → Text → Text → Option Text → LockRecord
unsigned kind source version replaced = record {
  kind = kind;
  source = source;
  version = version;
  replaced = replaced;
  signature = none;
}

unfoldable pub lock_record : DependencySpec → RecordOptions → LockRecord
lock_record (DependencySpec.path p) options =
    unsigned path_record (text "path+file://" ++ p) (text "local") options.replaced
lock_record (DependencySpec.oci o version) options = unsigned oci_record o version options.replaced
lock_record (DependencySpec.git g tag rev) options =
    let ref = or_default options.git_fallback (or_else tag rev) in
    unsigned git_record (text "git+" ++ (canonical_git_url g ++ (text "@" ++ ref))) ref
      options.replaced
lock_record (DependencySpec.helm repo chart version) options =
    unsigned helm_record (text "helm+" ++ (repo ++ (text "#" ++ chart)))
      (or_default version options.helm_version) options.replaced
lock_record (DependencySpec.url u) options =
    unsigned url_record (text "url+" ++ u) (text "url") options.replaced

-- `{ gitFallback: "vendored" }`
abbrev pub as_vendored : RecordOptions
as_vendored = record { git_fallback = text "vendored"; replaced = none; helm_version = none }

abbrev pub lock_record_for : Dependency → LockRecord
lock_record_for dependency = lock_record (dependency_spec dependency) as_vendored

abbrev pub is_helm : DependencySpec → Bool
is_helm (DependencySpec.helm repo chart version) = true
is_helm spec = false

abbrev pub is_oci : DependencySpec → Bool
is_oci (DependencySpec.oci o version) = true
is_oci spec = false

abbrev pub is_path : DependencySpec → Bool
is_path (DependencySpec.path p) = true
is_path spec = false

abbrev pub is_entry_of : Text → DependencySpec → LockedPackage → Bool
is_entry_of name spec entry =
    let declared = lock_record spec as_vendored in
    text_eq entry.name name
    && text_eq entry.source declared.source
    && (is_helm spec || text_eq entry.version declared.version)

unfoldable pub lock_entry_for : List LockedPackage → Text → Dependency → Option LockedPackage
lock_entry_for entries name dependency =
    find (is_entry_of name (dependency_spec dependency)) entries
