-- ===== src/Snapshot/Walk.antt =====
-- host/src/walk.effect.ts: `collectFiles`, on fuel for the depth of the directories.
use akuapkg.Common.{
  ℕ, zero, suc, Text, text, text_eq, Bool, not, ◌||◌, List, [], ◌∷◌, ◌++◌, if◌then◌else◌,
}
use akuapkg.Common.Result.{Result, ok, err, ◌>>=◌}
use akuapkg.Common.Sort.{to_sorted}
use akuapkg.HostFs.{FsError, HostFs, FileType, map_error, or_succeed}
use akuapkg.Snapshot.{compare_paths}

-- `too_deep` is none of the code's
pub data WalkError : Type 0 where
  too_deep : WalkError
  platform : FsError → WalkError

module _ (fs : HostFs) (root : Text) (keep skip : Text → Bool) where
  abbrev pub entry_at : Text → Text → Text
  entry_at relative name = if text_eq relative [] then name else relative ++ (text "/" ++ name)

  abbrev pub directory_at : Text → Text
  directory_at relative = if text_eq relative [] then root else fs.join_path (root ∷ relative ∷ [])

  module _ (walk : Text → Result WalkError (List Text)) (relative real_directory : Text) where
    -- what an entry that is no symlink adds
    abbrev pub add_found : Text → FileType → Result WalkError (List Text)
    add_found name FileType.directory = walk (entry_at relative name)
    add_found name FileType.file = ok (if keep name then entry_at relative name ∷ [] else [])
    add_found name FileType.other = ok []

    abbrev pub real_of : Text → Text
    real_of name = or_succeed [] (fs.real_path (fs.join_path (directory_at relative ∷ name ∷ [])))

    unfoldable pub visit : Text → Result WalkError (List Text)
    visit name =
        if skip name || not (text_eq (real_of name) (fs.join_path (real_directory ∷ name ∷ [])))
        then ok []
        else do type ← map_error platform (fs.stat (real_of name)); add_found name type

    unfoldable pub visit_all : List Text → Result WalkError (List Text)
    visit_all [] = ok []
    visit_all (name ∷ names) = do found ← visit name; others ← visit_all names; ok (found ++ others)

  unfoldable pub walk_from : ℕ → Text → Result WalkError (List Text)
  walk_from zero relative = err too_deep
  walk_from (suc fuel) relative = do
    real_directory ← map_error platform (fs.real_path (directory_at relative))
    names ← map_error platform (fs.read_directory (directory_at relative))
    visit_all (walk_from fuel) relative real_directory names

  abbrev pub sorted_walk : ℕ → Result WalkError (List Text)
  sorted_walk fuel = do found ← walk_from fuel []; ok (to_sorted compare_paths found)

  -- a missing root has no files
  unfoldable pub collect_files : ℕ → Result WalkError (List Text)
  collect_files fuel = do
    exists ← map_error platform (fs.exists root)
    if exists then sorted_walk fuel else ok []
