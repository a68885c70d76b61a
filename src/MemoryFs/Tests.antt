-- ===== src/MemoryFs/Tests.antt =====
-- Runs of the file system, and its theorems at concrete inputs.
use akuapkg.Common.{◌≡◌, refl, Text, text, text_eq, split_by, join, false, none, some, [], ◌∷◌}
use akuapkg.Common.Result.{ok, err}
use akuapkg.MemoryFs.{
  Node, file, dir, no_entries, named, enoent, fs_error, get_entry, set_entry, delete_entry, names,
  walk, last_part, without_last, parent, with_entries, unlink, mkdir, rmdir, readdir, stat, bytes,
  string, to_bytes, read_file, write_file,
}
use akuapkg.MemoryFs.Trees.{is_prefix}
use akuapkg.MemoryFs.Laws.{read_file-write_file}
use akuapkg.MemoryFs.Steps.{writes, read_file-frame}
use akuapkg.MemoryFs.Undo.{rmdir-mkdir}

-- an encoder for units below 128
abbrev same : Text → Text
same s = s

abbrev empty : Node
empty = dir no_entries

abbrev with_dir : Node
with_dir = dir (named (text "a") (dir no_entries) no_entries)

abbrev with_file : Node
with_file =
    dir
      (named (text "a") (dir (named (text "f") (file (text "hi") 0o100644) no_entries)) no_entries)

mkdir_run :
    (mkdir (text "/a") empty ≡ ok with_dir) × (readdir (text "./") with_dir ≡ ok (text "a" ∷ []))
unfolding mkdir parent split_by text_eq walk last_part without_last join set_entry with_entries
    get_entry readdir names
mkdir_run = (refl, refl)

write_run :
    write_file same same (text "a//f") (string (text "hi")) (some 0o100644) with_dir ≡ ok with_file
unfolding write_file to_bytes parent split_by text_eq walk last_part without_last join set_entry
    with_entries get_entry
write_run = refl

unlink_run : unlink (text "a/f") with_file ≡ ok with_dir
unfolding unlink parent split_by text_eq walk last_part without_last join delete_entry set_entry
    with_entries get_entry
unlink_run = refl

missing_run : mkdir (text "b/c") empty ≡ err (fs_error enoent (text "b/c"))
unfolding mkdir parent split_by text_eq walk last_part without_last join get_entry
missing_run = refl

read_file-write_file_example :
    (read_file same same (text "a//f") none with_file ≡ ok (bytes (text "hi")))
    × (stat (text "a//f") with_file
        ≡ ok (record { is_directory = false; mode = 0o100644; size = 2; ino = 2 }))
unfolding to_bytes split_by text_eq
read_file-write_file_example =
    read_file-write_file same same (text "a//f") (string (text "hi")) 0o100644 with_dir with_file
      write_run

read_file-frame_example :
    read_file same same (text "b") none with_file ≡ read_file same same (text "b") none with_dir
unfolding is_prefix split_by text_eq
read_file-frame_example =
    read_file-frame same same (text "a//f") (text "b") none with_dir with_file
      (writes (string (text "hi")) (some 0o100644) write_run) refl

rmdir-mkdir_example : rmdir (text "/a") with_dir ≡ ok empty
rmdir-mkdir_example = rmdir-mkdir (text "/a") empty with_dir (mkdir_run.0)
