-- ===== src/Snapshot/Inside.antt =====
-- `loadSnapshot` copies no file from outside the directory.
use mathlib.Core.List.{append_assoc}
use akuapkg.Common.{
  ℕ, Text, text_eq, compare_text, true, not, List, [], ◌∷◌, All, ◌≡◌, refl, subst, Bool-cases,
  not-false, inl, inr, any, ◌++◌, ◌⊎◌, ◌∙◌, starts_with, text_eq_iff, text_eq_refl, All-map, arith,
}
use akuapkg.Common.Result.{ok, Holds, Holds-bind, Holds-fail_if, Holds-mono}
use akuapkg.Common.Sort.{to_sorted, to_sorted-All}
use akuapkg.HostFs.{HostFs, FileType, map_error, map_error-eq-ok, is_inside, posix}
use akuapkg.Snapshot.{Snapshot}
use akuapkg.Snapshot.Load.{platform, set_file, add_entry, load_entries, load_snapshot}

set_file-All :
    (P : Text × List ℕ → Type 0) (key : Text) (bytes : List ℕ) (files : Snapshot)
    → P (key, bytes)
    → All P files
    → All P (set_file key bytes files)
unfolding set_file
set_file-All P key bytes [] h k = (h, tt)
set_file-All P key bytes ((name, old) ∷ files) h k = elim (Bool-cases (text_eq name key)) [
  | inl e ↦ rw e (h, k.1)
  | inr e ↦ rw e (k.0, set_file-All P key bytes files h k.1)
]

-- the listing holds the name
abbrev pub IsListed : List Text → Text → Type 0
IsListed listing rel = any (text_eq rel) listing ≡ true

All-IsListed : (listing : List Text) → All (IsListed listing) listing
All-IsListed [] = tt
All-IsListed (name ∷ rest) =
    (rw (text_eq_refl name) refl, All-map (λ rel h. ground (arith, h)) rest (All-IsListed rest))

starts_with-prefix : (s p : Text) → starts_with s p ≡ true → (t : Text) × (s ≡ p ++ t)
unfolding starts_with
starts_with-prefix s [] h = (s, refl)
starts_with-prefix [] (c ∷ p) h = cc
starts_with-prefix (a ∷ s) (c ∷ p) h =
    let (t, e) = starts_with-prefix s p (ground (arith, h)) in
    let same : a ≡ c = ground (arith, h) in (t, cc)

module _ (fs : HostFs) (root real_root : Text) (listing : List Text) where
  -- the real root itself, or the real root, a separator and more
  abbrev pub IsBelow : Text → Type 0
  IsBelow real = (real ≡ real_root) ⊎ ((t : Text) × (real ≡ real_root ++ (fs.sep ∷ t)))

  is_inside-IsBelow : (real : Text) → is_inside fs real_root real ≡ true → IsBelow real
  is_inside-IsBelow real h = elim (Bool-cases (text_eq real real_root)) [
    | inl e ↦ inl ((text_eq_iff real real_root).0 e)
    | inr e ↦
        let (t, same) = starts_with-prefix real (real_root ++ fs.sep ∷ []) (ground (arith, e, h)) in
        inr (t, same ∙ append_assoc real_root (fs.sep ∷ []) t)
  ]

  -- a listed file that was read at a real path that is the real root or lies below it
  abbrev pub IsInside : Text × List ℕ → Type 0
  IsInside (key, bytes) =
      (rel : Text) × (real : Text) × IsListed listing rel
      × (key ≡ posix fs rel)
      × (fs.real_path (fs.join_path (root ∷ rel ∷ [])) ≡ ok real)
      × IsBelow real
      × (fs.read_file real ≡ ok bytes)

  add_entry-Holds :
      (files : Snapshot) (rel real : Text) (type : FileType)
      → IsListed listing rel
      → fs.real_path (fs.join_path (root ∷ rel ∷ [])) ≡ ok real
      → is_inside fs real_root real ≡ true
      → All IsInside files
      → Holds (All IsInside) (add_entry fs root real_root files rel real type)
  add_entry-Holds files rel real FileType.directory l a b h = h
  add_entry-Holds files rel real FileType.other l a b h = h
  add_entry-Holds files rel real FileType.file l a b h =
      Holds-bind (All IsInside) (map_error platform (fs.read_file real)) _ (λ bytes k.
        set_file-All IsInside (posix fs rel) bytes files
          (
            rel,
            real,
            l,
            refl,
            a,
            is_inside-IsBelow real b,
            map_error-eq-ok platform (fs.read_file real) bytes k,
          )
          h)

  load_entries-Holds :
      (files : Snapshot) (entries : List Text)
      → All (IsListed listing) entries
      → All IsInside files
      → Holds (All IsInside) (load_entries fs root real_root files entries)
  unfolding load_entries
  load_entries-Holds files [] l h = h
  load_entries-Holds files (rel ∷ rest) l h =
      Holds-bind (All IsInside) (map_error platform (fs.real_path (fs.join_path (root ∷ rel ∷ []))))
        _
        (λ real a. Holds-fail_if (All IsInside) (not (is_inside fs real_root real)) _ _ (λ inside.
          Holds-bind (All IsInside) (map_error platform (fs.stat real)) _ (λ type b.
            Holds-bind (All IsInside) (add_entry fs root real_root files rel real type) _ (λ next c.
              load_entries-Holds next rest l.1 (
                subst (Holds (All IsInside)) c (
                  add_entry-Holds files rel real type l.0 (map_error-eq-ok platform _ real a)
                    (not-false _ inside) h))))))

abbrev pub IsContainedIn : HostFs → Text → Snapshot → Type 0
IsContainedIn fs root files =
    (real_root : Text) × (listing : List Text) × (fs.real_path root ≡ ok real_root)
    × (fs.read_directory_all root ≡ ok listing)
    × All (IsInside fs root real_root listing) files

load_snapshot-Holds :
    (fs : HostFs) (root : Text) → Holds (IsContainedIn fs root) (load_snapshot fs root)
load_snapshot-Holds fs root =
    Holds-bind (IsContainedIn fs root) (map_error platform (fs.real_path root)) _ (λ real_root a.
      Holds-bind (IsContainedIn fs root) (map_error platform (fs.read_directory_all root)) _
        (λ entries b.
          Holds-mono
            (λ files h. (
              real_root,
              entries,
              map_error-eq-ok platform (fs.real_path root) real_root a,
              map_error-eq-ok platform (fs.read_directory_all root) entries b,
              h,
            ))
            (load_entries fs root real_root [] (to_sorted compare_text entries))
            (load_entries-Holds fs root real_root entries [] (to_sorted compare_text entries)
              (to_sorted-All compare_text (IsListed entries) entries (All-IsListed entries)) tt)))

-- Every file of a loaded snapshot is one that the directory lists: its key is the listed path with
-- slashes, and its content was read at that path's real path, which is the real root of the directory
-- itself, or the real root followed by a separator and more.
pub load_snapshot-IsContainedIn :
    (fs : HostFs) (root : Text) (files : Snapshot)
    → load_snapshot fs root ≡ ok files
    → IsContainedIn fs root files
load_snapshot-IsContainedIn fs root files h =
    subst (Holds (IsContainedIn fs root)) h (load_snapshot-Holds fs root)
