-- ===== src/Manifest/Sources.antt =====
-- What a validated dependency entry is: one source, complete, with no credentials in it.
use akuapkg.Common.{
  ◌≡◌, ◌≢◌, ◌⊎◌, Text, text, starts_with, true, false, none, some, arith, List, [], ◌∷◌, All,
}
use akuapkg.Common.Result.{Result, ok, >>=-eq-ok}
use akuapkg.Manifest.{
  Dependency, DependencySpec, path, oci, git, helm, url, validate_dependency, dependency_spec,
  has_user_info, has_no_crds, is_not_plain, Manifest, parse_manifest, check_manifest,
  check_dependencies, dependencies, is_valid_package_name, toml_error,
}

-- of the five sources the entry sets no other than the one of `spec`
abbrev pub IsOnly : Dependency → DependencySpec → Type 0
IsOnly d (path p) = (d.oci ≡ none) × (d.git ≡ none) × (d.repo ≡ none) × (d.url ≡ none)
IsOnly d (oci o v) = (d.git ≡ none) × (d.path ≡ none) × (d.repo ≡ none) × (d.url ≡ none)
IsOnly d (git g tag rev) = (d.oci ≡ none) × (d.path ≡ none) × (d.repo ≡ none) × (d.url ≡ none)
IsOnly d (helm r c v) = (d.oci ≡ none) × (d.git ≡ none) × (d.path ≡ none) × (d.url ≡ none)
IsOnly d (url u) = (d.oci ≡ none) × (d.git ≡ none) × (d.path ≡ none) × (d.repo ≡ none)

-- `spec` is made of the fields that the entry sets, none filled in
abbrev pub Describes : Dependency → DependencySpec → Type 0
Describes d (path p) = (d.path ≡ some p) × (d.version ≡ none) × (d.tag ≡ none) × (d.rev ≡ none)
Describes d (oci o v) = (d.oci ≡ some o) × (d.version ≡ some v) × (has_user_info o ≡ false)
Describes d (git g tag rev) =
    (d.git ≡ some g)
    × (d.tag ≡ tag)
    × (d.rev ≡ rev)
    × ((tag ≢ none) ⊎ (rev ≢ none))
    × (has_user_info g ≡ false)
Describes d (helm r c v) =
    (d.repo ≡ some r)
    × (d.chart ≡ some c)
    × (d.version ≡ some v)
    × (has_user_info r ≡ false)
    × (is_not_plain c ≡ false)
Describes d (url u) =
    (d.url ≡ some u)
    × (d.version ≡ none)
    × (d.tag ≡ none)
    × (d.rev ≡ none)
    × (starts_with u (text "https://") ≡ true)
    × (has_no_crds d.crds ≡ false)
    × (has_user_info u ≡ false)

pub validate_dependency-Describes :
    (name : Text) (d : Dependency)
    → validate_dependency name d ≡ ok tt
    → Describes d (dependency_spec d)
unfolding validate_dependency dependency_spec
validate_dependency-Describes name d h = ground arith

validate_dependency-IsOnly :
    (name : Text) (d : Dependency)
    → validate_dependency name d ≡ ok tt
    → IsOnly d (dependency_spec d)
unfolding validate_dependency dependency_spec
validate_dependency-IsOnly name d h = ground arith

-- one source, and complete
abbrev pub IsDescribed : Dependency → Type 0
IsDescribed d = IsOnly d (dependency_spec d) × Describes d (dependency_spec d)

check_dependencies-Describes :
    (deps : List (Text × Dependency))
    → check_dependencies deps ≡ ok tt
    → All (λ entry. IsDescribed entry.1) deps
unfolding check_dependencies
check_dependencies-Describes [] h = tt
check_dependencies-Describes ((name, d) ∷ rest) h =
    let (_, here, later) = >>=-eq-ok (validate_dependency name d) _ h in
    (
      (validate_dependency-IsOnly name d here, validate_dependency-Describes name d here),
      check_dependencies-Describes rest later,
    )

check_manifest_ok :
    (decoded m : Manifest)
    → check_manifest decoded ≡ ok m
    → (is_valid_package_name m.section.name ≡ true)
      × (starts_with m.section.edition (text "akua.dev/") ≡ true)
      × (check_dependencies (dependencies m) ≡ ok tt)
unfolding check_manifest
check_manifest_ok decoded m h = ground arith

-- Whatever the TOML parser and the schema decoder return: of a manifest that `parseManifest`
-- accepts, the name is valid, the edition begins with `akua.dev/`, and every dependency, in the
-- order in which they are resolved, sets exactly one of the five sources, which is the one it is
-- resolved from, and with it what that source needs: a version for OCI and Helm, a tag or a revision
-- for git, a plain chart name for Helm, an `https` address and CRDs for a URL, no version, tag or
-- revision beside a path or a URL, and no credentials in an address.
pub parse_manifest-Describes :
    {Raw : Type 0} (parse_toml : Text → Result Text Raw) (decode : Raw → Result Text Manifest)
    (source : Text) (m : Manifest)
    → parse_manifest parse_toml decode source ≡ ok m
    → (is_valid_package_name m.section.name ≡ true)
      × (starts_with m.section.edition (text "akua.dev/") ≡ true)
      × All (λ entry. IsDescribed entry.1) (dependencies m)
unfolding parse_manifest
parse_manifest-Describes parse_toml decode source m h =
    let (raw, _, h1) = >>=-eq-ok (toml_error (parse_toml source)) _ h in
    let (decoded, _, h2) = >>=-eq-ok (toml_error (decode raw)) _ h1 in
    let (name, edition, deps) = check_manifest_ok decoded m h2 in
    (name, edition, check_dependencies-Describes (dependencies m) deps)
