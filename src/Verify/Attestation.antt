-- ===== src/Verify/Attestation.antt =====
-- host/src/cli/verify.ts: the attestation of one OCI dependency, and the report of a workspace.
use akuapkg.Common.{
  ℕ, Text, text, text_eq, starts_with, drop, any, length, Bool, true, false, Option, none, some,
  is_some, List, [], ◌∷◌, ◌++◌, if◌then◌else◌,
}
use akuapkg.Common.Result.{Result, ok, err, ◌>>=◌}
use akuapkg.HostFs.{map_error}
use akuapkg.Lock.{Lock, LockedPackage, packages}
use akuapkg.Manifest.{Manifest}
use akuapkg.Dependencies.Sources.{World}
use akuapkg.Dependencies.Package.{key_path}
use akuapkg.Verify.{
  Violation, Warning, VerifyFailure, unreadable_key, bad_cosign_key, attestation_missing,
  attestation_invalid, attestation_subject_mismatch, declared_of, printed_path, violations_of,
  warnings_of,
}

-- what the registry gives for an attestation
pub record Attested : Type 0 where
  pub envelope : Option (List ℕ)
  pub layer_digests : List Text
  pub manifest_digest : Text

-- the registry, the check of an envelope with a key, and the `sha256` digests of a statement's subjects
pub record Attestations : Type 0 where
  pub pull_attestation : Text → Text → Result Text Attested
  pub verify_dsse : Text → List ℕ → Result Text (List ℕ)
  pub decode_statement : List ℕ → Result Text (List (Option Text))

abbrev pub first_or_absent : List Text → Text
first_or_absent [] = text "<absent>"
first_or_absent (digest ∷ digests) = digest

abbrev pub first_subject : List (Option Text) → Text
first_subject [] = text "<absent>"
first_subject (none ∷ subjects) = text "<absent>"
first_subject (some digest ∷ subjects) = digest

-- `.replace(/^sha256:/, "")`
abbrev pub hex_of : Text → Text
hex_of digest = if starts_with digest (text "sha256:") then drop 7 digest else digest

abbrev pub is_subject : Text → Option Text → Bool
is_subject hex none = false
is_subject hex (some digest) = text_eq digest hex

module _ (services : Attestations) (entry : LockedPackage) where
  abbrev pub invalid_attestation : Text → Option Violation
  invalid_attestation detail = some (attestation_invalid entry.name entry.source detail)

  unfoldable pub subject_violation : Text → Result Text (List (Option Text)) → Option Violation
  subject_violation manifest_digest (err message) =
      invalid_attestation (text "in-toto statement parse: " ++ message)
  subject_violation manifest_digest (ok subjects) =
      if any (is_subject (hex_of manifest_digest)) subjects
      then none
      else some (
          attestation_subject_mismatch entry.name manifest_digest
            (text "sha256:" ++ first_subject subjects))

  unfoldable pub payload_violation : Text → Result Text (List ℕ) → Option Violation
  payload_violation manifest_digest (err message) = invalid_attestation message
  payload_violation manifest_digest (ok payload) =
      subject_violation manifest_digest (services.decode_statement payload)

  unfoldable pub envelope_violation : Text → Text → Option (List ℕ) → Option Violation
  envelope_violation key manifest_digest none = some (attestation_missing entry.name entry.source)
  envelope_violation key manifest_digest (some envelope) =
      payload_violation manifest_digest (services.verify_dsse key envelope)

  unfoldable pub found_violation : Text → Result Text Attested → Option Violation
  found_violation key (err message) = invalid_attestation (text "pull failed: " ++ message)
  found_violation key (ok found) =
      if any (text_eq entry.digest) found.layer_digests
      then envelope_violation key found.manifest_digest found.envelope
      else some (
          attestation_subject_mismatch entry.name entry.digest
            (first_or_absent found.layer_digests))

  abbrev pub attestation_violation : Text → Option Violation
  attestation_violation key =
      found_violation key (services.pull_attestation entry.source entry.version)

pub record Report : Type 0 where
  pub declared_deps : ℕ
  pub locked_packages : ℕ
  pub strict_signing : Bool
  pub violations : List Violation
  pub warnings : List Warning

abbrev pub is_strict : Manifest → Bool
is_strict manifest = elim manifest.section.strict_signing [
  | some strict ↦ strict
  | none ↦ is_some (key_path manifest.signing)
]

module _ (world : World) (services : Attestations) (keyed_signature_ref : Text → Result Text Text)
    (workspace : Text) where
  unfoldable pub public_key_of : Option Text → Result VerifyFailure (Option Text)
  public_key_of none = ok none
  public_key_of (some relative) =
      let file = printed_path workspace relative in
      (do key ← map_error (unreadable_key file) (world.fs.read_file_string file); ok (some key))

  unfoldable pub trusted_of : Bool → Option Text → Result VerifyFailure (Option Text)
  trusted_of false key = ok none
  trusted_of true none = ok none
  trusted_of true (some key) = do
    ref ← map_error bad_cosign_key (keyed_signature_ref key)
    ok (some ref)

  -- what `verify` prints, once the manifest and the lock are read
  unfoldable pub workspace_verify : Manifest → Lock → Result VerifyFailure Report
  workspace_verify manifest lock = do
    public_key ← public_key_of (key_path manifest.signing)
    trusted ← trusted_of (is_strict manifest) public_key
    ok (record {
      declared_deps = length (declared_of manifest);
      locked_packages = length (packages lock);
      strict_signing = is_strict manifest;
      violations =
          violations_of world workspace (attestation_violation services) (declared_of manifest)
            (packages lock) (is_strict manifest) public_key trusted;
      warnings = warnings_of world workspace (is_strict manifest) (packages lock);
    })
