-- ===== src/Lock/Tests.antt =====
-- Runs of the lockfile operations, and its theorems at concrete inputs.
use akuapkg.Common.{
  ◌≡◌, ◌≢◌, refl, Text, text, none, some, List, [], ◌∷◌, find, if◌then◌else◌, arith, text_eq,
  starts_with, compare_text,
}
use akuapkg.Common.Result.{ok}
use akuapkg.Common.Sort.{to_sorted}
use akuapkg.Lock.{
  LockedPackage, Lock, LockUpdate, packages, is_at, locked_entry, lock_version, place, upsert,
  upsert_all, merge_into_lock, by_name_then_version, check_packages,
}
use akuapkg.Lock.Refinement.{updated_all, survives, find-merge_into_lock}
use akuapkg.Lock.Valid.{check_packages-merge_into_lock, check_packages_around}

abbrev entry : Text → Text → Text → LockedPackage
entry name version digest = record {
  name = name;
  version = version;
  source = text "oci://r/x";
  digest = digest;
  vendor_digest = some (text "sha256:v");
  signature = some (text "sig");
  dependencies = none;
  attestation = none;
  replaced = none;
  yanked = none;
  kyverno_source_digest = none;
  converter_version = none;
  crds_digest = none;
}

abbrev update : Text → Text → Text → LockUpdate
update name version digest = record {
  name = name;
  version = version;
  source = text "oci://r/y";
  digest = digest;
  replaced = none;
  signature = none;
  crds_digest = none;
}

abbrev before : Lock
before = record {
  version = lock_version;
  entries = some (
      entry (text "a") (text "1") (text "sha256:0")
      ∷ entry (text "b") (text "1") (text "git:1")
      ∷ []);
}

abbrev first : LockedPackage
first = entry (text "a") (text "1") (text "sha256:0")

abbrev second : LockedPackage
second = entry (text "a") (text "2") (text "sha256:1")

abbrev resolved : List LockUpdate
resolved =
    update (text "c") (text "1") (text "sha256:2")
    ∷ update (text "a") (text "2") (text "sha256:3")
    ∷ []

abbrev map_names : List LockedPackage → List (Text × Text)
map_names [] = []
map_names (e ∷ es) = (e.name, e.version) ∷ map_names es

-- a new version replaces the old entry; a new dependency is inserted in order
merge_run :
    map_names (packages (merge_into_lock before resolved))
    ≡ (text "a", text "2") ∷ (text "b", text "1") ∷ (text "c", text "1") ∷ []
unfolding merge_into_lock upsert_all upsert place locked_entry by_name_then_version to_sorted
    text_eq compare_text
merge_run = refl

find-merge_into_lock_example :
    find (is_at (text "a") (text "2")) (packages (merge_into_lock before resolved))
    ≡ updated_all (text "a") (text "2") resolved (
        if survives (text "a") (text "2") resolved
        then find (is_at (text "a") (text "2")) (packages before)
        else none)
find-merge_into_lock_example = find-merge_into_lock (text "a") (text "2") before resolved

check_packages-merge_into_lock_example :
    check_packages none (packages (merge_into_lock before resolved)) ≡ ok tt
unfolding text_eq starts_with
check_packages-merge_into_lock_example =
    check_packages-merge_into_lock before resolved ((refl, tt), (tt, tt)) (refl, (refl, tt))
      (refl, (refl, tt))

check_packages_around_example :
    (check_packages none (first ∷ second ∷ first ∷ []) ≡ ok tt)
    × (check_packages none (to_sorted by_name_then_version (first ∷ second ∷ first ∷ [])) ≢ ok tt)
unfolding starts_with
check_packages_around_example =
    check_packages_around first second refl (λ e. ground (arith, e)) refl refl
