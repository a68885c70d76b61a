-- ===== src/Verify.antt =====
-- host/src/cli/verify.ts: a manifest against its lock. The registry's attestations, the check of an
-- envelope and the decoder of a statement are arguments.
pub mod Attestation
pub mod Checks
pub mod Consistent
mod Tests
use akuapkg.Common.{
  Text, text, text_eq, compare_text, starts_with, Bool, true, false, not, ◌&&◌, ◌||◌, Option, none,
  some, is_some, List, [], ◌∷◌, ◌++◌, map, any, find, if◌then◌else◌,
}
use akuapkg.Common.Result.{Result, ok, err, ◌>>=◌}
use akuapkg.Common.Sort.{to_sorted}
use akuapkg.HostFs.{FsError, map_error}
use akuapkg.Lock.{Lock, LockedPackage, packages}
use akuapkg.Manifest.{Manifest, Dependency}
use akuapkg.Dependencies.Sources.{World, DependencyTree, ResolveError}
use akuapkg.Dependencies.Trees.{path_dependency_tree}
use akuapkg.Dependencies.Package.{key_path}

pub data Violation : Type 0 where
  unlocked_dep : Text → Violation
  orphan_locked missing_signature : Text → Text → Violation
  signature_unverifiable : Text → Text → Text → Violation
  signature_mismatch : Text → Text → Text → Text → Violation
  path_digest_drift : Text → Text → Text → Violation
  path_missing : Text → Text → Violation
  attestation_missing : Text → Text → Violation
  attestation_invalid : Text → Text → Text → Violation
  attestation_subject_mismatch : Text → Text → Text → Violation

-- an `unsigned_dep`
pub record Warning : Type 0 where
  pub name : Text
  pub version : Text

pub data VerifyFailure : Type 0 where
  unreadable_key : Text → FsError → VerifyFailure
  bad_cosign_key : Text → VerifyFailure

abbrev pub push {ℓ} : {V : Type ℓ} → Option V → List V → List V
push none vs = vs
push (some v) vs = v ∷ vs

-- what a loop pushes, one violation at most for each element
unfoldable pub collect {ℓ κ} : {A : Type ℓ} {V : Type κ} → (A → Option V) → List A → List V
collect f [] = []
collect f (x ∷ xs) = push (f x) (collect f xs)

abbrev pub Declared : Type 0
Declared = List (Text × Dependency)

abbrev pub declared_of : Manifest → Declared
declared_of manifest = elim manifest.dependencies [ none ↦ [] | some found ↦ found ]

abbrev pub is_locked : List LockedPackage → Text → Bool
is_locked entries name = any (λ (entry : LockedPackage). text_eq entry.name name) entries

-- `declared[name]`, the own entries of the object
abbrev pub declared_as : Declared → Text → Option (Text × Dependency)
declared_as declared name = find (λ entry. text_eq entry.0 name) declared

unfoldable pub unlocked : List LockedPackage → Text → Option Violation
unlocked entries name = if is_locked entries name then none else some (unlocked_dep name)

-- what every object has: `declared[name]` on a plain object finds these too, and none has a `path`
unfoldable pub is_object_member : Text → Bool
is_object_member name = any (text_eq name) (
    text "constructor"
    ∷ text "toString"
    ∷ text "toLocaleString"
    ∷ text "valueOf"
    ∷ text "hasOwnProperty"
    ∷ text "isPrototypeOf"
    ∷ text "propertyIsEnumerable"
    ∷ text "__proto__"
    ∷ text "__defineGetter__"
    ∷ text "__defineSetter__"
    ∷ text "__lookupGetter__"
    ∷ text "__lookupSetter__"
    ∷ [])

unfoldable pub orphan : Declared → LockedPackage → Option Violation
orphan declared entry =
    if is_some (declared_as declared entry.name) || is_object_member entry.name
    then none
    else some (orphan_locked entry.name entry.version)

abbrev pub is_path_entry : LockedPackage → Bool
is_path_entry entry = starts_with entry.source (text "path+file://")

-- the signature of an entry against the configured key's
unfoldable pub signature_check : Option Text → LockedPackage → Option Text → Option Violation
signature_check trusted entry none = some (missing_signature entry.name entry.version)
signature_check none entry (some signature) =
    some (signature_unverifiable entry.name entry.version signature)
signature_check (some expected) entry (some signature) =
    if text_eq signature expected
    then none
    else some (signature_mismatch entry.name entry.version expected signature)

unfoldable pub signature_violation : Option Text → LockedPackage → Option Violation
signature_violation trusted entry =
    if is_path_entry entry then none else signature_check trusted entry entry.signature

unfoldable pub unsigned_warning : LockedPackage → Option Warning
unsigned_warning entry =
    if is_path_entry entry || is_some entry.signature
    then none
    else some (record { name = entry.name; version = entry.version })

unfoldable pub ends_in_slash : Text → Bool
ends_in_slash [] = false
ends_in_slash (c ∷ []) = text_eq (c ∷ []) (text "/")
ends_in_slash (c ∷ d ∷ s) = ends_in_slash (d ∷ s)

-- `joinPath` of host/src/cli/files.ts
unfoldable pub printed_path : Text → Text → Text
printed_path base rel =
    if starts_with rel (text "/")
    then rel
    else if ends_in_slash base
    then base ++ rel
    else base ++ (text "/" ++ rel)

abbrev pub requested_path : Option (Text × Dependency) → Option Text
requested_path none = none
requested_path (some entry) = entry.1.path

module _ (world : World) (workspace : Text) where
  unfoldable pub drift :
      LockedPackage → Text → Result ResolveError DependencyTree → Option Violation
  drift entry requested (err problem) =
      some (path_missing entry.name (printed_path workspace requested))
  drift entry requested (ok tree) =
      if text_eq tree.digest entry.digest
      then none
      else some (path_digest_drift entry.name entry.digest tree.digest)

  abbrev pub path_check : LockedPackage → Option Text → Option Violation
  path_check entry none = none
  path_check entry (some requested) =
      drift entry requested (path_dependency_tree world workspace entry.name requested)

  unfoldable pub path_violation : Declared → LockedPackage → Option Violation
  path_violation declared entry =
      if is_path_entry entry
      then path_check entry (requested_path (declared_as declared entry.name))
      else none

  -- the signature checks with `strict_signing`, else none
  abbrev pub signature_violations : Bool → Option Text → List LockedPackage → List Violation
  signature_violations strict trusted entries =
      if strict then collect (signature_violation trusted) entries else []

  abbrev pub warnings_of : Bool → List LockedPackage → List Warning
  warnings_of strict entries = if strict then [] else collect unsigned_warning entries

  module _ (attestation : LockedPackage → Text → Option Violation) where
    unfoldable pub attestation_check : Text → LockedPackage → Option Violation
    attestation_check key entry =
        if starts_with entry.source (text "oci://") then attestation entry key else none

    abbrev pub attestation_violations : Option Text → List LockedPackage → List Violation
    attestation_violations none entries = []
    attestation_violations (some key) entries = collect (attestation_check key) entries

    unfoldable pub violations_of :
        Declared → List LockedPackage → Bool → Option Text → Option Text → List Violation
    violations_of declared entries strict public_key trusted =
        collect (unlocked entries) (to_sorted compare_text (map (λ entry. entry.0) declared))
        ++ (collect (orphan declared) entries
            ++ (signature_violations strict trusted entries
                ++ (collect (path_violation declared) entries
                    ++ attestation_violations public_key entries)))
