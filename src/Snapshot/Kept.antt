-- ===== src/Snapshot/Kept.antt =====
-- What a walk returns: names that it may, in directories that it may enter.
use akuapkg.Common.{
  ℕ, zero, suc, Text, text_eq, Bool, true, false, not, ◌||◌, List, [], ◌∷◌, All, All-append, ◌≡◌,
  refl, subst, Bool-cases, inl, inr, arith,
}
use akuapkg.Common.Result.{Result, Holds, Holds-bind}
use akuapkg.Common.Sort.{to_sorted-All}
use akuapkg.HostFs.{HostFs, FileType, map_error}
use akuapkg.Snapshot.{compare_paths}
use akuapkg.Snapshot.Walk.{
  WalkError, platform, entry_at, directory_at, add_found, real_of, visit, visit_all, walk_from,
  collect_files,
}

or_false : (a b : Bool) → (a || b) ≡ false → a ≡ false
or_false a b h = ground (arith, h)

module _ (fs : HostFs) (root : Text) (keep skip : Text → Bool) where
  -- an entry of a directory whose name the walk keeps and does not skip
  abbrev pub IsKept : Text → Type 0
  IsKept path =
      (relative : Text) × (name : Text) × (path ≡ entry_at fs root keep skip relative name)
      × (keep name ≡ true)
      × (skip name ≡ false)

  module _ (walk : Text → Result WalkError (List Text))
      (walked : (relative : Text) → Holds (All IsKept) (walk relative))
      (relative real_directory : Text) where
    add_found-IsKept :
        (name : Text) (type : FileType)
        → skip name ≡ false
        → Holds (All IsKept) (add_found fs root keep skip walk relative real_directory name type)
    add_found-IsKept name FileType.directory h = walked (entry_at fs root keep skip relative name)
    add_found-IsKept name FileType.other h = tt
    add_found-IsKept name FileType.file h = elim (Bool-cases (keep name)) [
      | inl e ↦ rw e ((relative, name, refl, e, h), tt)
      | inr e ↦ rw e tt
    ]

    visit-IsKept :
        (name : Text)
        → Holds (All IsKept) (visit fs root keep skip walk relative real_directory name)
    unfolding visit
    visit-IsKept name =
        let link = not (
          text_eq (real_of fs root keep skip walk relative real_directory name)
            (fs.join_path (real_directory ∷ name ∷ []))) in
        elim (Bool-cases (skip name || link)) [
          | inl e ↦ rw e tt
          | inr e ↦ rw e (
              Holds-bind (All IsKept)
                (map_error platform
                  (fs.stat (real_of fs root keep skip walk relative real_directory name)))
                _ (λ type k. add_found-IsKept name type (or_false (skip name) link e)))
        ]

    visit_all-IsKept :
        (names : List Text)
        → Holds (All IsKept) (visit_all fs root keep skip walk relative real_directory names)
    unfolding visit_all
    visit_all-IsKept [] = tt
    visit_all-IsKept (name ∷ names) =
        Holds-bind (All IsKept) (visit fs root keep skip walk relative real_directory name) _
          (λ found h.
            Holds-bind (All IsKept) (visit_all fs root keep skip walk relative real_directory names)
              _
              (λ others k.
                All-append IsKept found others (subst (Holds (All IsKept)) h (visit-IsKept name))
                  (subst (Holds (All IsKept)) k (visit_all-IsKept names))))

  walk_from-IsKept :
      (fuel : ℕ) (relative : Text) → Holds (All IsKept) (walk_from fs root keep skip fuel relative)
  unfolding walk_from
  walk_from-IsKept zero relative = tt
  walk_from-IsKept (suc fuel) relative =
      Holds-bind (All IsKept)
        (map_error platform (fs.real_path (directory_at fs root keep skip relative))) _
        (λ real_directory h.
          Holds-bind (All IsKept)
            (map_error platform (fs.read_directory (directory_at fs root keep skip relative))) _
            (λ names k.
              visit_all-IsKept (walk_from fs root keep skip fuel) (walk_from-IsKept fuel) relative
                real_directory names))

  collect_files-IsKept : (fuel : ℕ) → Holds (All IsKept) (collect_files fs root keep skip fuel)
  unfolding collect_files
  collect_files-IsKept fuel =
      Holds-bind (All IsKept) (map_error platform (fs.exists root)) _ (λ exists h.
        elim (Bool-cases exists) [
          | inl e ↦ rw e (
              Holds-bind (All IsKept) (walk_from fs root keep skip fuel []) _ (λ found k.
                to_sorted-All compare_paths IsKept found
                  (subst (Holds (All IsKept)) k (walk_from-IsKept fuel []))))
          | inr e ↦ rw e tt
        ])
