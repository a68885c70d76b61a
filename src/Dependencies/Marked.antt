-- ===== src/Dependencies/Marked.antt =====
-- What `detectKind` finds: the marker files of the kind at the prefix.
use mathlib.Core.List.{append_assoc}
use akuapkg.Common.Split.{split-append_sep, split-of_Lacks}
use akuapkg.Common.Sort.{All-to_sorted}
use akuapkg.Common.{
  Text, text, text_eq, includes, Bool, true, false, not, ◌&&◌, none, some, List, [], ◌∷◌, ◌++◌, ◌≡◌,
  ◌⊎◌, refl, subst, inl, inr, Bool-cases, Option-cases, arith, ◌≢◌, any, All, map, split, join,
  compare_text, text_eq_iff, sym, ap, ◌∙◌, if◌then◌else◌,
}
use akuapkg.Snapshot.{Snapshot}
use akuapkg.Dependencies.Kinds.{
  DependencyKind, helm_chart, Detected, markers, has_markers, directories_of, marked_directory,
  detect_from, detect_kind, has_file, but_last, add_new,
}

-- a directory directly below the root
abbrev pub IsDirectory : Text → Type 0
IsDirectory directory = (directory ≢ []) × (includes directory b'/' ≡ false)

-- the names stand at the prefix: at the root, or, as they are not all there, in a directory below it
abbrev pub IsMarked : Snapshot → List Text → Text → Type 0
IsMarked files names prefix =
    ((prefix ≡ []) × (has_markers files [] names ≡ true))
    ⊎ ((has_markers files [] names ≡ false)
        × IsDirectory prefix
        × (has_markers files (prefix ++ text "/") names ≡ true))

-- the names stand together neither at the root nor in any directory directly below it
abbrev pub IsUnmarked : Snapshot → List Text → Type 0
IsUnmarked files names =
    (has_markers files [] names ≡ false)
    × ((directory : Text)
        → IsDirectory directory
        → has_markers files (directory ++ text "/") names ≡ false)

-- the first kind that is marked, or none is and it is the default
abbrev pub IsDetected : Snapshot → List (DependencyKind × List Text) → Detected → Type 0
IsDetected files [] found = found ≡ (helm_chart, [])
IsDetected files ((kind, names) ∷ rest) found =
    ((found.0 ≡ kind) × IsMarked files names found.1)
    ⊎ (IsUnmarked files names × IsDetected files rest found)

three_true :
    (d : Text) (b c : Bool)
    → (not (text_eq d []) && not b && c) ≡ true
    → (d ≢ []) × (b ≡ false) × (c ≡ true)
three_true d b c h = (
  λ e.
      let empty : text_eq d [] ≡ true = (text_eq_iff d []).1 e in absurd (ground (arith, h, empty)),
  ground (arith, h),
  ground (arith, h),
)

marked_directory_sound :
    (files : Snapshot) (names directories : List Text) (directory : Text)
    → marked_directory files names directories ≡ some directory
    → (directory ≢ [])
      × (includes directory b'/' ≡ false)
      × (has_markers files (directory ++ text "/") names ≡ true)
unfolding marked_directory
marked_directory_sound files names [] directory h = cc
marked_directory_sound files names (d ∷ rest) directory h =
    elim (Bool-cases
      (not (text_eq d []) && not (includes d b'/') && has_markers files (d ++ text "/") names)) [
        | inl e ↦
            let same : d ≡ directory = ground (arith, e, h) in
            subst
              (λ x.
                (x ≢ [])
                × (includes x b'/' ≡ false)
                × (has_markers files (x ++ text "/") names ≡ true))
              same (three_true d (includes d b'/') _ e)
        | inr e ↦ marked_directory_sound files names rest directory (ground (arith, e, h))
      ]

-- where none is found, no directory of the list is marked
abbrev IsPassed : Snapshot → List Text → Text → Type 0
IsPassed files names directory =
    IsDirectory directory → has_markers files (directory ++ text "/") names ≡ false

passed_here :
    (d : Text) (b c : Bool)
    → (not (text_eq d []) && not b && c) ≡ false
    → d ≢ []
    → b ≡ false
    → c ≡ false
passed_here d b c h k l = elim (Bool-cases (text_eq d [])) [
  | inl e ↦ absurd (k ((text_eq_iff d []).0 e))
  | inr e ↦ ground (arith, h, e, l)
]

marked_directory-none :
    (files : Snapshot) (names directories : List Text)
    → marked_directory files names directories ≡ none
    → All (IsPassed files names) directories
unfolding marked_directory
marked_directory-none files names [] h = tt
marked_directory-none files names (d ∷ rest) h =
    elim (Bool-cases
      (not (text_eq d []) && not (includes d b'/') && has_markers files (d ++ text "/") names)) [
        | inl e ↦ absurd (ground (arith, e, h))
        | inr e ↦ (
          λ (filled, inner). passed_here d (includes d b'/') _ e filled inner,
          marked_directory-none files names rest (ground (arith, e, h)),
        )
      ]

if_true {ℓ} :
    {A : Type ℓ} (P : A → Type 0) {b : Bool} (x y : A) → b ≡ true → P (if b then x else y) → P x
if_true P x y e h = subst (λ c. P (if c then x else y)) e h

if_false {ℓ} :
    {A : Type ℓ} (P : A → Type 0) {b : Bool} (x y : A) → b ≡ false → P (if b then x else y) → P y
if_false P x y e h = subst (λ c. P (if c then x else y)) e h

module _ (P : Text → Type 0) where
  any-All : (name : Text) (seen : List Text) → any (text_eq name) seen ≡ true → All P seen → P name
  any-All name [] h k = cc
  any-All name (x ∷ seen) h k = elim (Bool-cases (text_eq name x)) [
    | inl e ↦ subst P (sym ((text_eq_iff name x).0 e)) k.0
    | inr e ↦ any-All name seen (ground (arith, h, e)) k.1
  ]

  -- what holds of a set's elements holds of all that were put into it
  All-add_new : (seen names : List Text) → All P seen → All P (add_new seen names) → All P names
  unfolding add_new
  All-add_new seen [] h k = tt
  All-add_new seen (name ∷ names) h k = elim (Bool-cases (any (text_eq name) seen)) [
    | inl e ↦ (any-All name seen e h, All-add_new seen names h (if_true (All P) _ _ e k))
    | inr e ↦
        let new = if_false (All P) _ _ e k in
        (new.0, All-add_new (name ∷ seen) names (new.0, h) new.1)
  ]

abbrev directory_of : Text → Text
directory_of path = join b'/' (but_last (split b'/' path))

directory_of-file :
    (directory name : Text)
    → includes directory b'/' ≡ false
    → includes name b'/' ≡ false
    → directory_of ((directory ++ text "/") ++ name) ≡ directory
unfolding but_last join
directory_of-file directory name h k =
    ap directory_of (append_assoc directory (text "/") name)
    ∙ ap (λ parts. join b'/' (but_last parts))
        (split-append_sep b'/' directory name h ∙ ap (◌∷◌ directory) (split-of_Lacks b'/' name k))

-- the directory of a file that is there is one of the directories
has_file-directory :
    (P : Text → Type 0) (files : Snapshot) (path : Text)
    → has_file files path ≡ true
    → All P (map (λ entry. directory_of entry.0) files)
    → P (directory_of path)
unfolding has_file
has_file-directory P [] path h k = cc
has_file-directory P ((name, bytes) ∷ files) path h k = elim (Bool-cases (text_eq name path)) [
  | inl e ↦ subst (λ n. P (directory_of n)) ((text_eq_iff name path).0 e) k.0
  | inr e ↦ has_file-directory P files path (ground (arith, h, e)) k.1
]

-- the first name of a kind has no slash
abbrev IsNamed : List Text → Type 0
IsNamed [] = ⊥
IsNamed (name ∷ names) = includes name b'/' ≡ false

-- without a marked directory among the files' directories, none is marked at all
marked_nowhere :
    (files : Snapshot) (names : List Text)
    → IsNamed names
    → marked_directory files names (directories_of files) ≡ none
    → (directory : Text) → IsDirectory directory
    → has_markers files (directory ++ text "/") names ≡ false
marked_nowhere files [] named h directory inner = absurd named
marked_nowhere files (name ∷ names) named h directory inner =
    let P = IsPassed files (name ∷ names) in
    let listed = map (λ (entry : Text × Text). directory_of entry.0) files in
    let all_passed : All P listed = All-add_new P [] listed tt (
      All-to_sorted compare_text P (add_new [] listed)
        (marked_directory-none files (name ∷ names) (directories_of files) h)) in
    elim (Bool-cases (has_markers files (directory ++ text "/") (name ∷ names))) [
      | inr e ↦ e
      | inl e ↦
          let there : has_file files ((directory ++ text "/") ++ name) ≡ true = ground (arith, e) in
          subst P (directory_of-file directory name inner.1 named)
            (has_file-directory P files ((directory ++ text "/") ++ name) there all_passed) inner
    ]

marked_below :
    (files : Snapshot) (names directories : List Text) (directory : Text)
    → marked_directory files names directories ≡ some directory
    → IsDirectory directory × (has_markers files (directory ++ text "/") names ≡ true)
marked_below files names directories directory h =
    let (filled, inner, there) = marked_directory_sound files names directories directory h in
    ((filled, inner), there)

detect_from-IsDetected :
    (files : Snapshot) (kinds : List (DependencyKind × List Text))
    → All (λ (kind : DependencyKind × List Text). IsNamed kind.1) kinds
    → IsDetected files kinds (detect_from files kinds)
unfolding detect_from
detect_from-IsDetected files [] named = refl
detect_from-IsDetected files ((kind, names) ∷ rest) named =
    elim (Bool-cases (has_markers files [] names)) [
      | inl e ↦ rw e (inl (refl, inl (refl, refl)))
      | inr e ↦ elim (Option-cases (marked_directory files names (directories_of files))) [
        | inl k ↦ rw e (
            rw k (
              inr (
                (refl, marked_nowhere files names named.0 k),
                detect_from-IsDetected files rest named.1,
              )))
        | inr (directory, k) ↦ rw e (
            rw k (
              inl (
                refl,
                inr (
                    let (inner, there) =
                      marked_below files names (directories_of files) directory k in
                    (refl, inner, there)),
              )))
      ]
    ]

markers-IsNamed : All (λ (kind : DependencyKind × List Text). IsNamed kind.1) markers
unfolding includes
markers-IsNamed = (refl, (refl, (refl, tt)))

-- The kind that is detected is the first, of chart, module and package, whose marker files all stand at
-- the root or in one directory directly below it, and the prefix is where they stand, the root if they
-- are there; for each kind before it, neither the root nor any directory directly below it holds all its
-- markers. A tree where no kind's markers stand so is taken for a chart at its root.
pub detect_kind-IsDetected : (files : Snapshot) → IsDetected files markers (detect_kind files)
detect_kind-IsDetected files = detect_from-IsDetected files markers markers-IsNamed
