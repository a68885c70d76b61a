-- ===== src/Manifest.antt =====
-- host/src/manifest.ts: `akua.toml`, its validation rule by rule, the dependency sources and the
-- identifiers that dependency keys import as. The TOML parser and the schema decoder are
-- third-party: parameters of `parse_manifest`.
pub mod Idents
pub mod Sources
pub mod Selectors
pub mod Print
mod Tests
use akuapkg.Common.{
  ℕ, ◌+◌, Text, text, text_eq, compare_text, starts_with, includes, split, split_by, after,
  contains, is_alnum, is_digit, Ordering, Bool, true, false, not, ◌&&◌, ◌||◌, Option, none, some,
  or_else, is_none, is_some, List, [], ◌∷◌, map, any, all, ◌==◌, if◌then◌else◌,
}
use akuapkg.Common.Result.{Result, ok, err, ◌>>=◌, ◌>>◌, fail_if}
use akuapkg.Common.Sort.{to_sorted}

-- `boolean | string`
pub data Crds : Type 0 where
  flag : Bool → Crds
  selector : Text → Crds

pub record Dependency : Type 0 where
  pub oci : Option Text
  pub git : Option Text
  pub path : Option Text
  pub repo : Option Text
  pub chart : Option Text
  pub url : Option Text
  pub version : Option Text
  pub tag : Option Text
  pub rev : Option Text
  pub crds : Option Crds
  -- the `path` of `replace`
  pub replace : Option Text

pub record PackageSection : Type 0 where
  pub name : Text
  pub version : Text
  pub edition : Text
  pub strict_signing : Option Bool

pub record Signing : Type 0 where
  pub cosign_public_key : Option Text
  pub cosign_private_key : Option Text

pub record Manifest : Type 0 where
  -- the field `package`
  pub section : PackageSection
  -- the `members` of `workspace`
  pub workspace : Option (Option (List Text))
  pub signing : Option Signing
  -- an object's entries, one for each key
  pub dependencies : Option (List (Text × Dependency))

pub data DependencySpec : Type 0 where
  path : Text → DependencySpec
  oci : Text → Text → DependencySpec
  git : Text → Option Text → Option Text → DependencySpec
  helm : Text → Text → Text → DependencySpec
  url : Text → DependencySpec

pub data ManifestCode : Type 0 where
  manifest_parse oci_userinfo git_userinfo crds_invalid : ManifestCode
  helm_missing_chart helm_missing_version helm_userinfo helm_chart_invalid : ManifestCode

-- one constructor for each message, with what it interpolates
pub data ManifestMessage : Type 0 where
  toml_parse_error : Text → ManifestMessage
  bad_edition : Text → ManifestMessage
  bad_name : Text → ManifestMessage
  source_count : ℕ → ManifestMessage
  oci_without_version git_without_ref path_with_ref url_without_crds : ManifestMessage
  url_not_https url_with_ref helm_without_chart helm_without_version : ManifestMessage
  oci_credentials git_credentials url_credentials repo_credentials : ManifestMessage
  crds_outside : Text → ManifestMessage
  chart_not_plain : Text → ManifestMessage

pub record Problem : Type 0 where
  -- the dependency that the message begins with
  pub dependency : Option Text
  pub message : ManifestMessage
  pub code : ManifestCode

abbrev pub fail : Text → ManifestMessage → ManifestCode → Problem
fail name message code = record { dependency = some name; message = message; code = code }

abbrev pub after_scheme : Text → Text
after_scheme address = elim (after (text "://") address) [ none ↦ address | some rest ↦ rest ]

-- an `@` in the authority
unfoldable pub has_user_info : Text → Bool
has_user_info address = includes (split_by (λ c. c == b'/') (after_scheme address)).0 b'@'

abbrev count : Option Text → ℕ
count none = 0
count (some source) = 1

abbrev pub sources : Dependency → ℕ
sources d = count d.oci + count d.git + count d.path + count d.repo + count d.url

abbrev has_ref : Dependency → Bool
has_ref d = is_some d.version || is_some d.tag || is_some d.rev

check_oci : Text → Dependency → Option Text → Result Problem (Unit {0})
check_oci name d none = ok tt
check_oci name d (some source) = do
  fail_if (is_none d.version) (fail name oci_without_version manifest_parse)
  fail_if (has_user_info source) (fail name oci_credentials oci_userinfo)

check_git : Text → Dependency → Option Text → Result Problem (Unit {0})
check_git name d none = ok tt
check_git name d (some source) = do
  fail_if (is_none d.tag && is_none d.rev) (fail name git_without_ref manifest_parse)
  fail_if (has_user_info source) (fail name git_credentials git_userinfo)

check_path : Text → Dependency → Option Text → Result Problem (Unit {0})
check_path name d none = ok tt
check_path name d (some source) = fail_if (has_ref d) (fail name path_with_ref manifest_parse)

-- `crds === undefined || crds === false`
abbrev pub has_no_crds : Option Crds → Bool
has_no_crds none = true
has_no_crds (some (flag b)) = not b
has_no_crds (some (selector s)) = false

check_url : Text → Dependency → Option Text → Result Problem (Unit {0})
check_url name d none = ok tt
check_url name d (some source) = do
  fail_if (has_no_crds d.crds) (fail name url_without_crds crds_invalid)
  fail_if (not (starts_with source (text "https://"))) (fail name url_not_https crds_invalid)
  fail_if (has_ref d) (fail name url_with_ref crds_invalid)
  fail_if (has_user_info source) (fail name url_credentials crds_invalid)

abbrev pub is_separator : ℕ → Bool
is_separator c = c == b'/' || c == b'\\'

-- `selector.split(/[/\\]/).includes("..")`, and the tests before it
unfoldable pub is_outside : Text → Bool
is_outside s =
    text_eq s []
    || starts_with s (text "/")
    || starts_with s (text "\\")
    || (let (first, more) = split_by is_separator s in
        any (λ part. text_eq part (text "..")) (first ∷ more))

check_crds : Text → Option Crds → Result Problem (Unit {0})
check_crds name (some (selector s)) =
    fail_if (is_outside s) (fail name (crds_outside s) crds_invalid)
check_crds name _ = ok tt

-- `/[/\\]|\.\./.test(chart)`
abbrev pub is_not_plain : Text → Bool
is_not_plain chart = any is_separator chart || contains chart (text "..")

check_chart : Text → Option Text → Result Problem (Unit {0})
check_chart name none = err (fail name helm_without_chart helm_missing_chart)
check_chart name (some chart) = ok tt

check_plain : Text → Option Text → Result Problem (Unit {0})
check_plain name none = ok tt
check_plain name (some chart) =
    fail_if (is_not_plain chart) (fail name (chart_not_plain chart) helm_chart_invalid)

check_repo : Text → Dependency → Option Text → Result Problem (Unit {0})
unfolding check_chart check_plain
check_repo name d none = ok tt
check_repo name d (some source) = do
  check_chart name d.chart
  fail_if (is_none d.version) (fail name helm_without_version helm_missing_version)
  fail_if (has_user_info source) (fail name repo_credentials helm_userinfo)
  check_plain name d.chart

-- `ok` is the source's `undefined`
unfoldable pub validate_dependency : Text → Dependency → Result Problem (Unit {0})
unfolding check_oci check_git check_path check_url check_crds check_repo
validate_dependency name d = do
  fail_if (not (sources d == 1)) (fail name (source_count (sources d)) manifest_parse)
  check_oci name d d.oci
  check_git name d d.git
  check_path name d d.path
  check_url name d d.url
  check_crds name d.crds
  check_repo name d d.repo

abbrev or_empty : Option Text → Text
or_empty o = elim o [ none ↦ [] | some s ↦ s ]

helm_spec : Dependency → DependencySpec
helm_spec d = helm (or_empty d.repo) (or_empty d.chart) (or_empty d.version)

unfoldable pub dependency_spec : Dependency → DependencySpec
unfolding helm_spec
dependency_spec d = elim d.path [
  | some p ↦ path p
  | none ↦ elim d.url [
    | some u ↦ url u
    | none ↦ elim d.oci [
      | some o ↦ oci o (or_empty d.version)
      | none ↦ elim d.git [ some g ↦ git g d.tag d.rev | none ↦ helm_spec d ]
    ]
  ]
]

unfoldable pub crd_selector : Dependency → Option Text
crd_selector d = elim d.crds [
  | none ↦ none
  | some c ↦ elim c [ flag b ↦ if b then some (text ".") else none | selector s ↦ some s ]
]

abbrev pub is_word : ℕ → Bool
is_word c = is_alnum c || c == b'_'

-- `/^[A-Za-z0-9_][A-Za-z0-9_-]*$/`
unfoldable pub is_valid_package_name : Text → Bool
is_valid_package_name [] = false
is_valid_package_name (c ∷ s) = is_word c && all (λ a. is_word a || a == b'-') s

abbrev underscore : ℕ → ℕ
underscore c = if is_word c then c else b'_'

-- `_` in front of a leading digit
abbrev guard_digit : Text → Text
guard_digit [] = []
guard_digit (c ∷ s) = if is_digit c then b'_' ∷ c ∷ s else c ∷ s

unfoldable pub kcl_ident : Text → Text
kcl_ident name = guard_digit (map underscore name)

abbrev by_key : Text × Dependency → Text × Dependency → Ordering
by_key a b = compare_text a.0 b.0

abbrev entries : Manifest → List (Text × Dependency)
entries m = elim m.dependencies [ none ↦ [] | some found ↦ found ]

unfoldable pub dependencies : Manifest → List (Text × Dependency)
dependencies m = to_sorted by_key (entries m)

-- the loop of `parseManifest`
unfoldable pub check_dependencies : List (Text × Dependency) → Result Problem (Unit {0})
check_dependencies [] = ok tt
check_dependencies ((name, d) ∷ rest) =
    let later = check_dependencies rest in do validate_dependency name d; later

abbrev toml_error : {A : Type 0} → Result Text A → Result Problem A
toml_error (ok a) = ok a
toml_error (err message) =
    err (record { dependency = none; message = toml_parse_error message; code = manifest_parse })

abbrev about_package : ManifestMessage → Problem
about_package message = record { dependency = none; message = message; code = manifest_parse }

-- the checks of `parseManifest` on a decoded manifest
unfoldable pub check_manifest : Manifest → Result Problem Manifest
check_manifest m = do
  fail_if (not (starts_with m.section.edition (text "akua.dev/")))
      (about_package (bad_edition m.section.edition))
  fail_if (not (is_valid_package_name m.section.name)) (about_package (bad_name m.section.name))
  check_dependencies (dependencies m)
  ok m

module _ {Raw : Type 0} (parse_toml : Text → Result Text Raw)
    (decode_manifest : Raw → Result Text Manifest) where
  -- the path that the error carries is the caller's argument
  unfoldable pub parse_manifest : Text → Result Problem Manifest
  parse_manifest source = do
    raw ← toml_error (parse_toml source)
    m ← toml_error (decode_manifest raw)
    check_manifest m
