-- ===== src/Lock.antt =====
-- host/src/lockfile.ts: `akua.lock`, its validation, and the merge of resolved dependencies. The
-- TOML parser and the schema decoder are third-party: parameters of `parse_lock`.
pub mod Order
pub mod Refinement
pub mod Valid
pub mod Print
mod Tests
use akuapkg.Common.{
  ℕ, ◌≡◌, Text, text, text_eq, compare_text, starts_with, Ordering, Bool, true, false, not, ◌&&◌,
  ◌||◌, Option, none, some, or_else, List, [], ◌∷◌, ◌++◌, any, filter, find, ◌==◌, if◌then◌else◌,
}
use akuapkg.Common.Result.{Result, ok, err, ◌>>=◌, ◌>>◌, fail_if}
use akuapkg.Common.Sort.{to_sorted}

pub record LockedPackage : Type 0 where
  pub name : Text
  pub version : Text
  pub source : Text
  pub digest : Text
  pub vendor_digest : Option Text
  pub signature : Option Text
  pub dependencies : Option (List Text)
  pub attestation : Option Text
  -- the `path` of `replaced`
  pub replaced : Option Text
  pub yanked : Option Bool
  pub kyverno_source_digest : Option Text
  pub converter_version : Option Text
  pub crds_digest : Option Text

pub record Lock : Type 0 where
  pub version : ℕ
  -- the field `package`
  pub entries : Option (List LockedPackage)

abbrev pub lock_version : ℕ
lock_version = 1

abbrev pub empty_lock : Lock
empty_lock = record { version = lock_version; entries = some [] }

-- the message of a `LockInvalid`, one constructor for each, with what it interpolates
pub data LockProblem : Type 0 where
  toml_parse_error : Text → LockProblem
  unsupported_version : ℕ → LockProblem
  not_alphabetical : Text → Text → LockProblem
  duplicate : Text → LockProblem
  bad_digest : Text → LockProblem

pub record LockInvalid : Type 0 where
  pub path : Text
  pub message : LockProblem

-- `lock.package ?? []`
abbrev pub packages : Lock → List LockedPackage
packages lock = elim lock.entries [ none ↦ [] | some found ↦ found ]

abbrev is_less : Text → Text → Bool
is_less s t = elim (compare_text s t) [ Ordering.lt ↦ true | _ ↦ false ]

abbrev pub has_digest : LockedPackage → Bool
has_digest entry =
    starts_with entry.digest (text "sha256:") || starts_with entry.digest (text "git:")

abbrev check_order : Option LockedPackage → LockedPackage → Result LockProblem (Unit {0})
check_order none entry = ok tt
check_order (some previous) entry = do
  fail_if (is_less entry.name previous.name) (not_alphabetical entry.name previous.name)
  fail_if (text_eq entry.name previous.name && text_eq entry.version previous.version)
      (duplicate entry.name)

-- the loop of `parseLock`, with the entry before
unfoldable pub check_packages :
    Option LockedPackage → List LockedPackage → Result LockProblem (Unit {0})
check_packages previous [] = ok tt
check_packages previous (entry ∷ rest) =
    let later = check_packages (some entry) rest in
    do check_order previous entry; fail_if (not (has_digest entry)) (bad_digest entry.name); later

abbrev invalid : {A : Type 0} → Text → Result LockProblem A → Result LockInvalid A
invalid path (ok a) = ok a
invalid path (err problem) = err (record { path = path; message = problem })

abbrev toml_error : {A : Type 0} → Result Text A → Result LockProblem A
toml_error (ok a) = ok a
toml_error (err message) = err (toml_parse_error message)

module _ {Raw : Type 0} (parse_toml : Text → Result Text Raw)
    (decode_lock : Raw → Result Text Lock) where
  parse_problem : Text → Result LockProblem Lock
  parse_problem source = do
    raw ← toml_error (parse_toml source)
    lock ← toml_error (decode_lock raw)
    fail_if (not (lock.version == lock_version)) (unsupported_version lock.version)
    check_packages none (packages lock)
    ok lock

  unfoldable pub parse_lock : Text → Text → Result LockInvalid Lock
  unfolding parse_problem
  parse_lock source path = invalid path (parse_problem source)

unfoldable pub pinned_entries : Lock → Bool → List LockedPackage
pinned_entries lock oci_only =
    filter
      (λ entry.
        if oci_only
        then starts_with entry.source (text "oci://")
        else not (starts_with entry.source (text "path+file://")))
      (packages lock)

unfoldable pub by_name_then_version : LockedPackage → LockedPackage → Ordering
by_name_then_version a b = elim (compare_text a.name b.name) [
  | Ordering.lt ↦ Ordering.lt
  | Ordering.gt ↦ Ordering.gt
  | Ordering.eq ↦ compare_text a.version b.version
]

pub record LockUpdate : Type 0 where
  pub name : Text
  pub version : Text
  pub source : Text
  pub digest : Text
  pub replaced : Option Text
  pub signature : Option Text
  pub crds_digest : Option Text

-- `entry.name === name && entry.version === version`
abbrev pub is_at : Text → Text → LockedPackage → Bool
is_at name version entry = text_eq entry.name name && text_eq entry.version version

-- the previous entry, if its digest is the update's
abbrev pub carry : LockUpdate → Option LockedPackage → Option LockedPackage
carry update none = none
carry update (some previous) = if text_eq previous.digest update.digest then some previous else none

abbrev carried {ℓ} : {A : Type ℓ} → (LockedPackage → Option A) → Option LockedPackage → Option A
carried field none = none
carried field (some previous) = field previous

unfoldable pub locked_entry : LockUpdate → Option LockedPackage → LockedPackage
locked_entry update previous =
    let kept = carry update previous in
    record {
      name = update.name;
      version = update.version;
      source = update.source;
      digest = update.digest;
      vendor_digest = carried (λ p. p.vendor_digest) kept;
      signature = or_else update.signature (carried (λ p. p.signature) kept);
      dependencies = carried (λ p. p.dependencies) kept;
      attestation = carried (λ p. p.attestation) kept;
      replaced = update.replaced;
      yanked = carried (λ p. p.yanked) kept;
      kyverno_source_digest = carried (λ p. p.kyverno_source_digest) kept;
      converter_version = carried (λ p. p.converter_version) kept;
      crds_digest = update.crds_digest;
    }

-- `if (slot === -1) packages.push(entry) else packages[slot] = entry`
unfoldable pub place :
    (LockedPackage → Bool) → LockedPackage → List LockedPackage → List LockedPackage
place at entry [] = entry ∷ []
place at entry (x ∷ xs) = if at x then entry ∷ xs else x ∷ place at entry xs

-- one round of the loop of `mergeIntoLock`
unfoldable pub upsert : LockUpdate → List LockedPackage → List LockedPackage
upsert update entries =
    let at = is_at update.name update.version in
    place at (locked_entry update (find at entries)) entries

unfoldable pub upsert_all : List LockUpdate → List LockedPackage → List LockedPackage
upsert_all [] entries = entries
upsert_all (update ∷ updates) entries = upsert_all updates (upsert update entries)

-- an entry stays unless updates name it, all at other versions
abbrev pub is_kept : List LockUpdate → LockedPackage → Bool
is_kept updates entry =
    not (any (λ (update : LockUpdate). text_eq update.name entry.name) updates)
    || any
        (λ (update : LockUpdate).
          text_eq update.name entry.name && text_eq update.version entry.version)
        updates

unfoldable pub merge_into_lock : Lock → List LockUpdate → Lock
merge_into_lock lock updates = record {
  version = lock.version;
  entries = some (
      to_sorted by_name_then_version
        (upsert_all updates (filter (is_kept updates) (packages lock))));
}
