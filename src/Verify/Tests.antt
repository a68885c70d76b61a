-- ===== src/Verify/Tests.antt =====
-- `verify` on a package with one OCI dependency.
use akuapkg.Common.{
  Text, text, text_eq, starts_with, true, false, Option, none, some, [], ◌∷◌, ◌≡◌, ◌↔◌, refl,
}
use akuapkg.Common.Result.{ok, err}
use akuapkg.Common.Sort.{insert, to_sorted}
use akuapkg.HostFs.{FsError, HostFs}
use akuapkg.Lock.{LockedPackage}
use akuapkg.Dependencies.Sources.{World, FetchError}
use akuapkg.Verify.{
  Violation, orphan_locked, missing_signature, unlocked_dep, Declared, collect, unlocked, orphan,
  signature_check, signature_violation, path_violation, attestation_check, violations_of,
  is_object_member,
}
use akuapkg.Verify.Consistent.{IsConsistent, violations_of-IsConsistent}

abbrev missing : FsError
missing = record { message = text "missing"; is_not_found = true }

abbrev fs : HostFs
fs = record {
  exists = (λ p. ok false);
  real_path = (λ p. ok p);
  read_directory = (λ p. err missing);
  read_directory_all = (λ p. err missing);
  stat = (λ p. err missing);
  read_file = (λ p. err missing);
  read_file_string = (λ p. err missing);
  join_path = (λ names. []);
  sep = b'/';
  is_absolute = (λ p. false);
}

abbrev nothing_found : FetchError
nothing_found = record { code = []; message = []; offline = false; drift = false }

abbrev world : World
world = record {
  fs = fs;
  encode = (λ t. t);
  decode = (λ b. b);
  hash = (λ b. []);
  cli_name = text "akuapkg";
  variable = (λ name. none);
  pull = (λ request. err nothing_found);
  fetch_helm = (λ request. err nothing_found);
  fetch_git = (λ request. err nothing_found);
  fetch_url = (λ request. err nothing_found);
}

abbrev declared : Declared
declared =
    (
      text "app",
      record {
        oci = some (text "oci://r/app");
        git = none;
        path = none;
        repo = none;
        chart = none;
        url = none;
        version = some (text "1.0.0");
        tag = none;
        rev = none;
        crds = none;
        replace = none;
      },
    )
    ∷ []

abbrev locked : Text → Option Text → LockedPackage
locked name signature = record {
  name = name;
  version = text "1.0.0";
  source = text "oci://r/app";
  digest = text "sha256:1";
  vendor_digest = none;
  signature = signature;
  dependencies = none;
  attestation = none;
  replaced = none;
  yanked = none;
  kyverno_source_digest = none;
  converter_version = none;
  crds_digest = none;
}

abbrev no_attestation : LockedPackage → Text → Option Violation
no_attestation entry key = none

consistent_run :
    violations_of world
      (text ".")
      no_attestation
      declared
      (locked (text "app") (some (text "cosign:key:1")) ∷ [])
      true
      (some (text "key"))
      (some (text "cosign:key:1"))
    ≡ []
unfolding violations_of collect unlocked orphan signature_violation signature_check path_violation
    attestation_check to_sorted insert text_eq starts_with
consistent_run = refl

renamed_run :
    violations_of world
      (text ".")
      no_attestation
      declared
      (locked (text "old") none ∷ [])
      true
      none
      none
    ≡ unlocked_dep (text "app")
      ∷ orphan_locked (text "old") (text "1.0.0")
      ∷ missing_signature (text "old") (text "1.0.0")
      ∷ []
unfolding violations_of collect unlocked orphan is_object_member signature_violation signature_check
    path_violation attestation_check to_sorted insert text_eq starts_with
renamed_run = refl

violations_of-IsConsistent_example :
    (violations_of world
        (text ".")
        no_attestation
        declared
        (locked (text "app") (some (text "cosign:key:1")) ∷ [])
        true
        (some (text "key"))
        (some (text "cosign:key:1"))
      ≡ [])
    ↔ IsConsistent world
        (text ".")
        no_attestation
        declared
        (locked (text "app") (some (text "cosign:key:1")) ∷ [])
        true
        (some (text "key"))
        (some (text "cosign:key:1"))
violations_of-IsConsistent_example =
    violations_of-IsConsistent world (text ".") no_attestation declared
      (locked (text "app") (some (text "cosign:key:1")) ∷ []) true (some (text "key"))
      (some (text "cosign:key:1"))
