-- ===== src/Snapshot/Load.antt =====
-- host/src/snapshot.effect.ts: `loadSnapshot`, the escape boundary.
use akuapkg.Common.{ℕ, Text, text_eq, compare_text, not, List, [], ◌∷◌, if◌then◌else◌}
use akuapkg.Common.Result.{Result, ok, ◌>>=◌, ◌>>◌, fail_if}
use akuapkg.Common.Sort.{to_sorted}
use akuapkg.HostFs.{FsError, HostFs, FileType, map_error, is_inside, posix}
use akuapkg.Snapshot.{Snapshot}

pub data LoadError : Type 0 where
  path_escape : Text → LoadError
  platform : FsError → LoadError

-- `files.set(key, bytes)`
unfoldable pub set_file : Text → List ℕ → Snapshot → Snapshot
set_file key bytes [] = (key, bytes) ∷ []
set_file key bytes ((name, old) ∷ files) =
    let rest = set_file key bytes files in
    if text_eq name key then (key, bytes) ∷ files else (name, old) ∷ rest

module _ (fs : HostFs) (root real_root : Text) where
  abbrev pub add_entry : Snapshot → Text → Text → FileType → Result LoadError Snapshot
  add_entry files rel real FileType.file = do
    bytes ← map_error platform (fs.read_file real)
    ok (set_file (posix fs rel) bytes files)
  add_entry files rel real _ = ok files

  -- the loop over the entries
  unfoldable pub load_entries : Snapshot → List Text → Result LoadError Snapshot
  load_entries files [] = ok files
  load_entries files (rel ∷ rest) = do
    real ← map_error platform (fs.real_path (fs.join_path (root ∷ rel ∷ [])))
    fail_if (not (is_inside fs real_root real)) (path_escape (posix fs rel))
    type ← map_error platform (fs.stat real)
    next ← add_entry files rel real type
    load_entries next rest

abbrev pub load_snapshot : HostFs → Text → Result LoadError Snapshot
load_snapshot fs root = do
  real_root ← map_error platform (fs.real_path root)
  entries ← map_error platform (fs.read_directory_all root)
  load_entries fs root real_root [] (to_sorted compare_text entries)
