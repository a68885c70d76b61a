-- ===== src/Lock/Refinement.antt =====
-- A lockfile as a map from name and version to the entry that a reader finds, and what the merge
-- does to that map.
use akuapkg.Common.{
  ◌≡◌, refl, ◌∙◌, ap, Text, text_eq, text_eq_refl, Bool, true, false, not, ◌&&◌, ◌||◌, Option, none,
  some, List, [], ◌∷◌, any, filter, find, find-filter, if◌then◌else◌, arith, Bool-cases, inl, inr,
}
use akuapkg.Common.Sort.{find-to_sorted}
use akuapkg.Lock.{
  LockedPackage, Lock, LockUpdate, packages, is_at, locked_entry, place, upsert, upsert_all,
  is_kept, merge_into_lock, by_name_then_version,
}
use akuapkg.Lock.Order.{by_name_then_version_apart, is_at_sound}

-- what the map holds at `name` and `version` after one update
abbrev pub updated : Text → Text → LockUpdate → Option LockedPackage → Option LockedPackage
updated name version update previous =
    if text_eq update.name name && text_eq update.version version
    then some (locked_entry update previous)
    else previous

abbrev pub updated_all : Text → Text → List LockUpdate → Option LockedPackage → Option LockedPackage
updated_all name version [] previous = previous
updated_all name version (update ∷ updates) previous =
    updated_all name version updates (updated name version update previous)

-- an update of that name keeps the entry only if one is at its version
abbrev pub survives : Text → Text → List LockUpdate → Bool
survives name version updates =
    not (any (λ (update : LockUpdate). text_eq update.name name) updates)
    || any (λ (update : LockUpdate). text_eq update.name name && text_eq update.version version)
        updates

pub find-place_self :
    (p : LockedPackage → Bool) (entry : LockedPackage) (xs : List LockedPackage)
    → p entry ≡ true
    → find p (place p entry xs) ≡ some entry
unfolding place
find-place_self p entry [] h = ground arith
find-place_self p entry (x ∷ xs) h = ground (arith, find-place_self p entry xs h)

pub find-place_apart :
    (p at : LockedPackage → Bool) (entry : LockedPackage) (xs : List LockedPackage)
    → p entry ≡ false
    → ((x : LockedPackage) → at x ≡ true → p x ≡ false)
    → find p (place at entry xs) ≡ find p xs
unfolding place
find-place_apart p at entry [] h k = ground arith
find-place_apart p at entry (x ∷ xs) h k = ground (arith, k x, find-place_apart p at entry xs h k)

find-upsert_self :
    (update : LockUpdate) (xs : List LockedPackage)
    → find (is_at update.name update.version) (upsert update xs)
      ≡ updated update.name update.version update (find (is_at update.name update.version) xs)
unfolding upsert
find-upsert_self update xs =
    rw (text_eq_refl update.name, text_eq_refl update.version)
      (find-place_self (is_at update.name update.version) (locked_entry update _) xs
        (unfold locked_entry in rw (text_eq_refl update.name, text_eq_refl update.version)))

module _ (name version : Text) where
  is_at_apart :
      (update : LockUpdate) (x : LockedPackage)
      → text_eq update.name name && text_eq update.version version ≡ false
      → is_at update.name update.version x ≡ true
      → is_at name version x ≡ false
  is_at_apart update x other h =
      let e = is_at_sound x.name update.name x.version update.version h in rw e.0 (rw e.1 other)

  -- one round of the merge is one update of the map
  find-upsert :
      (update : LockUpdate) (xs : List LockedPackage)
      → find (is_at name version) (upsert update xs)
        ≡ updated name version update (find (is_at name version) xs)
  unfolding upsert
  find-upsert update xs =
      elim (Bool-cases (text_eq update.name name && text_eq update.version version)) [
        | inl same ↦
            let e = is_at_sound update.name name update.version version same in
            rw (← e.0, ← e.1) (find-upsert_self update xs)
        | inr other ↦ rw other (
            find-place_apart (is_at name version) (is_at update.name update.version)
              (locked_entry update (find (is_at update.name update.version) xs)) xs
              (unfold locked_entry in other) (λ x k. is_at_apart update x other k))
      ]

  find-upsert_all :
      (updates : List LockUpdate) (xs : List LockedPackage)
      → find (is_at name version) (upsert_all updates xs)
        ≡ updated_all name version updates (find (is_at name version) xs)
  unfolding upsert_all
  find-upsert_all [] xs = refl
  find-upsert_all (update ∷ updates) xs =
      find-upsert_all updates (upsert update xs)
      ∙ ap (updated_all name version updates) (find-upsert update xs)

  is_kept-survives :
      (updates : List LockUpdate) (entry : LockedPackage)
      → is_at name version entry ≡ true
      → is_kept updates entry ≡ survives name version updates
  is_kept-survives updates entry h =
      let e = is_at_sound entry.name name entry.version version h in rw (← e.0, ← e.1)

  -- The entry that a reader finds at a name and version of the merged lock is the one found there
  -- before, unless updates of its name are all at other versions, taken through each update of that
  -- name and version in turn.
  pub find-merge_into_lock :
      (lock : Lock) (updates : List LockUpdate)
      → find (is_at name version) (packages (merge_into_lock lock updates))
        ≡ updated_all name version updates (
            if survives name version updates
            then find (is_at name version) (packages lock)
            else none)
  unfolding merge_into_lock
  find-merge_into_lock lock updates =
      find-to_sorted by_name_then_version (is_at name version)
        (by_name_then_version_apart name version) _
      ∙ find-upsert_all updates (filter (is_kept updates) (packages lock))
      ∙ ap (updated_all name version updates) (
          find-filter (is_at name version) (is_kept updates) (survives name version updates)
            (is_kept-survives updates) (packages lock))
