-- ===== src/Manifest/Tests.antt =====
-- Runs of the manifest rules, and its theorems at concrete inputs.
use akuapkg.Common.{
  ◌≡◌, ◌≢◌, ◌↔◌, refl, Text, text, text_eq, compare_text, starts_with, split_by, includes, after,
  true, false, none, some, [], ◌∷◌, All,
}
use akuapkg.Common.Sort.{to_sorted}
use akuapkg.Common.Result.{Result, ok, err}
use akuapkg.Manifest.{
  Dependency, Manifest, oci, selector, fail, oci_without_version, manifest_parse, oci_credentials,
  oci_userinfo, crds_outside, crds_invalid, validate_dependency, dependency_spec, is_outside,
  has_user_info, dependencies, check_dependencies, check_manifest, parse_manifest, kcl_ident,
  is_valid_package_name,
}
use akuapkg.Manifest.Sources.{IsDescribed, parse_manifest-Describes}
use akuapkg.Manifest.Idents.{
  IsIdent, IsPackageName, starts_with_digit, is_valid_package_name-IsIdent,
}
use akuapkg.Manifest.Selectors.{validate_dependency-resolves}
use akuapkg.Snapshot.{resolve_in_snapshot}

abbrev bare : Dependency
bare = record {
  oci = none;
  git = none;
  path = none;
  repo = none;
  chart = none;
  url = none;
  version = none;
  tag = none;
  rev = none;
  crds = none;
  replace = none;
}

abbrev chart : Dependency
chart = record bare { oci = some (text "oci://r.io/c"); version = some (text "1.2") }

abbrev crds_dep : Dependency
crds_dep = record chart { crds = some (selector (text "config/crd")) }

rules_run :
    (validate_dependency (text "c") chart ≡ ok tt)
    × (validate_dependency (text "c") (record chart { version = none })
        ≡ err (fail (text "c") oci_without_version manifest_parse))
    × (validate_dependency (text "c") (record chart { oci = some (text "oci://u:p@r.io/c") })
        ≡ err (fail (text "c") oci_credentials oci_userinfo))
    × (validate_dependency (text "c") (record chart { crds = some (selector (text "a\\..")) })
        ≡ err (fail (text "c") (crds_outside (text "a\\..")) crds_invalid))
    × (dependency_spec chart ≡ oci (text "oci://r.io/c") (text "1.2"))
unfolding validate_dependency has_user_info includes split_by after starts_with text_eq is_outside
    dependency_spec
rules_run = (refl, refl, refl, refl, refl)

abbrev hello : Manifest
hello = record {
  section = record {
    name = text "hello";
    version = text "0.1.0";
    edition = text "akua.dev/v1alpha1";
    strict_signing = none;
  };
  workspace = none;
  signing = none;
  dependencies = some ((text "web", chart) ∷ (text "certs", crds_dep) ∷ []);
}

abbrev parse_any : Text → Result Text Text
parse_any source = ok source

abbrev decode_hello : Text → Result Text Manifest
decode_hello raw = ok hello

parse_run : parse_manifest parse_any decode_hello [] ≡ ok hello
unfolding parse_manifest check_manifest check_dependencies dependencies to_sorted
    is_valid_package_name validate_dependency has_user_info includes split_by after starts_with
    text_eq compare_text is_outside
parse_run = refl

parse_manifest-Describes_example :
    (is_valid_package_name (text "hello") ≡ true)
    × (starts_with (text "akua.dev/v1alpha1") (text "akua.dev/") ≡ true)
    × All (λ entry. IsDescribed entry.1) (dependencies hello)
parse_manifest-Describes_example =
    parse_manifest-Describes parse_any decode_hello [] hello parse_run

idents_run : kcl_ident (text "1cert-manager") ≡ text "_1cert_manager"
unfolding kcl_ident
idents_run = refl

is_valid_package_name-IsIdent_example :
    ((is_valid_package_name (text "9-a") ≡ true) ↔ IsPackageName (text "9-a"))
    × (IsPackageName (text "9-a")
        → IsIdent (text "9-a")
          ↔ ((includes (text "9-a") b'-' ≡ false) × (starts_with_digit (text "9-a") ≡ false)))
is_valid_package_name-IsIdent_example = is_valid_package_name-IsIdent (text "9-a")

validate_dependency-resolves_example : resolve_in_snapshot (text "config/crd") ≢ none
unfolding validate_dependency has_user_info includes split_by after starts_with text_eq is_outside
validate_dependency-resolves_example =
    validate_dependency-resolves (text "certs") (text "config/crd") crds_dep refl refl
