-- ===== src/HostFs.antt =====
-- The host's file system and paths, as host/src calls them: Effect's FileSystem and Path, which
-- are third-party, are records that the definitions take.
use akuapkg.Common.{
  ℕ, ◌≡◌, ap, Text, text_eq, split, join, starts_with, Bool, ◌||◌, List, [], ◌∷◌, ◌++◌,
}
use akuapkg.Common.Result.{Result, ok, err}

-- a PlatformError: its message, and whether its reason is NotFound
pub record FsError : Type 0 where
  pub message : Text
  pub is_not_found : Bool

pub data FileType : Type 0 where
  directory file other : FileType

pub record HostFs : Type 0 where
  pub exists : Text → Result FsError Bool
  pub real_path : Text → Result FsError Text
  pub read_directory : Text → Result FsError (List Text)
  -- with `recursive`
  pub read_directory_all : Text → Result FsError (List Text)
  pub stat : Text → Result FsError FileType
  pub read_file : Text → Result FsError (List ℕ)
  pub read_file_string : Text → Result FsError Text
  -- `path.join`, `path.sep`, `path.isAbsolute`
  pub join_path : List Text → Text
  pub sep : ℕ
  pub is_absolute : Text → Bool

-- `Effect.mapError`
abbrev pub map_error {ℓ κ μ} :
    {E : Type ℓ} {F : Type κ} {A : Type μ} → (E → F) → Result E A → Result F A
map_error f (ok a) = ok a
map_error f (err e) = err (f e)

pub map_error-eq-ok {ℓ κ μ} :
    {E : Type ℓ} {F : Type κ} {A : Type μ} (f : E → F) (r : Result E A) (a : A)
    → map_error f r ≡ ok a
    → r ≡ ok a
map_error-eq-ok f (ok b) a h = let e : b ≡ a = cc in ap ok e
map_error-eq-ok f (err e) a h = cc

-- `Effect.orElseSucceed`
abbrev pub or_succeed {ℓ κ} : {E : Type ℓ} {A : Type κ} → A → Result E A → A
or_succeed default (ok a) = a
or_succeed default (err e) = default

abbrev pub is_file_type : FileType → FileType → Bool
is_file_type directory directory = Bool.true
is_file_type file file = Bool.true
is_file_type other other = Bool.true
is_file_type a b = Bool.false

module _ (fs : HostFs) where
  -- `stat`, and no error counts as a directory
  abbrev pub is_directory : Text → Bool
  is_directory target = is_directory_type (fs.stat target)
    where
      is_directory_type : Result FsError FileType → Bool
      is_directory_type (ok type) = is_file_type type directory
      is_directory_type (err e) = Bool.false

  -- `target === root || target.startsWith(`${root}${sep}`)`
  abbrev pub is_inside : Text → Text → Bool
  is_inside root target = text_eq target root || starts_with target (root ++ fs.sep ∷ [])

  -- `rel.split(path.sep).join("/")`
  abbrev pub posix : Text → Text
  posix rel = join b'/' (split fs.sep rel)
