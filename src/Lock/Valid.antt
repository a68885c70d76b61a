-- ===== src/Lock/Valid.antt =====
-- What `mergeIntoLock` writes passes the validation of `parseLock`.
use akuapkg.Common.{
  ◌≡◌, ◌≢◌, refl, text_eq_iff, Bool, true, false, ◌||◌, none, some, List, [], ◌∷◌, filter, find,
  arith, Bool-cases, inl, inr, All, All-map, All-filter, Pairwise, Pairwise-filter, starts_with,
  text, compare_text-flip, compare_text_refl, compare_text_eq, text_eq_refl,
}
use akuapkg.Common.Result.{ok}
use akuapkg.Common.Sort.{to_sorted, IsSorted, to_sorted-IsSorted, to_sorted-All, to_sorted-Pairwise}
use akuapkg.Lock.{
  LockedPackage, Lock, LockUpdate, packages, is_at, has_digest, locked_entry, place, upsert,
  upsert_all, is_kept, merge_into_lock, by_name_then_version, check_packages,
}
use akuapkg.Lock.Order.{by_name_then_version_total, is_at_sound}

-- two entries not both at one name and version
abbrev pub Differ : LockedPackage → LockedPackage → Type 0
Differ a b = is_at a.name a.version b ≡ false

abbrev pub IsPinned : LockedPackage → Type 0
IsPinned entry = has_digest entry ≡ true

Differ-symm : (a b : LockedPackage) → Differ a b → Differ b a
Differ-symm a b h = ground (
  arith,
  text_eq_iff a.name b.name,
  text_eq_iff b.name a.name,
  text_eq_iff a.version b.version,
  text_eq_iff b.version a.version,
)

All-place {κ} :
    (P : LockedPackage → Type κ) (at : LockedPackage → Bool) (entry : LockedPackage)
    (xs : List LockedPackage)
    → P entry
    → All P xs
    → All P (place at entry xs)
unfolding place
All-place P at entry [] p h = (p, tt)
All-place P at entry (x ∷ xs) p h = elim (Bool-cases (at x)) [
  | inl e ↦ rw e (p, h.1)
  | inr e ↦ rw e (h.0, All-place P at entry xs p h.1)
]

Pairwise-place :
    (entry : LockedPackage) (xs : List LockedPackage)
    → Pairwise Differ xs
    → Pairwise Differ (place (is_at entry.name entry.version) entry xs)
unfolding place
Pairwise-place entry [] h = (tt, tt)
Pairwise-place entry (x ∷ xs) h = elim (Bool-cases (is_at entry.name entry.version x)) [
  | inl e ↦ rw e (
    let k = is_at_sound x.name entry.name x.version entry.version e in
        All-map (λ y d. rw (← k.0) (rw (← k.1) d)) xs h.0,
    h.1,
  )
  | inr e ↦ rw e (
    All-place (Differ x) (is_at entry.name entry.version) entry xs (Differ-symm entry x e) h.0,
    Pairwise-place entry xs h.1,
  )
]

check_packages_of_IsSorted :
    (x : LockedPackage) (xs : List LockedPackage)
    → IsSorted by_name_then_version (x ∷ xs)
    → Pairwise Differ (x ∷ xs)
    → All IsPinned xs
    → check_packages (some x) xs ≡ ok tt
unfolding check_packages by_name_then_version
check_packages_of_IsSorted x [] s d p = refl
check_packages_of_IsSorted x (y ∷ ys) s d p = ground (
  arith,
  check_packages_of_IsSorted y ys s.1 d.1 p.1,
  compare_text-flip x.name y.name,
  text_eq_iff x.name y.name,
  text_eq_iff y.name x.name,
  text_eq_iff x.version y.version,
  text_eq_iff y.version x.version,
)

check_packages_of_valid :
    (xs : List LockedPackage)
    → IsSorted by_name_then_version xs
    → Pairwise Differ xs
    → All IsPinned xs
    → check_packages none xs ≡ ok tt
unfolding check_packages
check_packages_of_valid [] s d p = refl
check_packages_of_valid (x ∷ xs) s d p = rw p.0 (check_packages_of_IsSorted x xs s d p.1)

-- the digest of an update is `sha256:` or `git:`
abbrev pub UpdateIsPinned : LockUpdate → Type 0
UpdateIsPinned update =
    (starts_with update.digest (text "sha256:") || starts_with update.digest (text "git:")) ≡ true

upsert-Pairwise :
    (update : LockUpdate) (xs : List LockedPackage)
    → Pairwise Differ xs
    → Pairwise Differ (upsert update xs)
unfolding upsert locked_entry
upsert-Pairwise update xs h =
    Pairwise-place (locked_entry update (find (is_at update.name update.version) xs)) xs h

upsert-IsPinned :
    (update : LockUpdate) (xs : List LockedPackage)
    → UpdateIsPinned update
    → All IsPinned xs
    → All IsPinned (upsert update xs)
unfolding upsert
upsert-IsPinned update xs u h = All-place IsPinned _ _ xs (unfold locked_entry in u) h

upsert_all-Pairwise :
    (updates : List LockUpdate) (xs : List LockedPackage)
    → Pairwise Differ xs
    → Pairwise Differ (upsert_all updates xs)
unfolding upsert_all
upsert_all-Pairwise [] xs h = h
upsert_all-Pairwise (update ∷ updates) xs h =
    upsert_all-Pairwise updates (upsert update xs) (upsert-Pairwise update xs h)

upsert_all-IsPinned :
    (updates : List LockUpdate) (xs : List LockedPackage)
    → All UpdateIsPinned updates
    → All IsPinned xs
    → All IsPinned (upsert_all updates xs)
unfolding upsert_all
upsert_all-IsPinned [] xs u h = h
upsert_all-IsPinned (update ∷ updates) xs u h =
    upsert_all-IsPinned updates (upsert update xs) u.1 (upsert-IsPinned update xs u.0 h)

-- If no two entries of the lock stand at one name and version, and all digests of its entries and
-- of the updates begin with `sha256:` or `git:`, then the entries of the merged lock pass the
-- validation of `parseLock`: alphabetical, no duplicates, digests well formed.
pub check_packages-merge_into_lock :
    (lock : Lock) (updates : List LockUpdate)
    → Pairwise Differ (packages lock)
    → All IsPinned (packages lock)
    → All UpdateIsPinned updates
    → check_packages none (packages (merge_into_lock lock updates)) ≡ ok tt
unfolding merge_into_lock
check_packages-merge_into_lock lock updates d p u =
    let start = filter (is_kept updates) (packages lock) in
    let merged = upsert_all updates start in
    check_packages_of_valid (to_sorted by_name_then_version merged)
      (to_sorted-IsSorted by_name_then_version by_name_then_version_total merged)
      (to_sorted-Pairwise by_name_then_version Differ Differ-symm merged
        (upsert_all-Pairwise updates start (Pairwise-filter Differ (is_kept updates) _ d)))
      (to_sorted-All by_name_then_version IsPinned merged
        (upsert_all-IsPinned updates start u (All-filter IsPinned (is_kept updates) _ p)))

-- The validation compares neighbours alone: it accepts a lock that holds an entry twice around
-- another version of the same name, and refuses the same entries once they are sorted, which is
-- how they are written.
pub check_packages_around :
    (a b : LockedPackage)
    → a.name ≡ b.name
    → a.version ≢ b.version
    → IsPinned a
    → IsPinned b
    → (check_packages none (a ∷ b ∷ a ∷ []) ≡ ok tt)
      × (check_packages none (to_sorted by_name_then_version (a ∷ b ∷ a ∷ [])) ≢ ok tt)
unfolding check_packages to_sorted by_name_then_version
check_packages_around a b n v p q = (
  ground (
    arith,
    text_eq_iff a.version b.version,
    text_eq_iff b.version a.version,
    compare_text_refl a.name,
  ),
  λ h. ground (
    arith,
    compare_text_refl a.name,
    compare_text_refl a.version,
    compare_text-flip a.version b.version,
    compare_text_eq a.version b.version,
    text_eq_refl a.name,
    text_eq_refl a.version,
  ),
)
