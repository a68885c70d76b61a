-- ===== src/MemoryFs.antt =====
-- host/src/memory-fs.ts: the file system in memory that fetched repositories are written to. A
-- method takes the tree and returns the new one, or the error it throws.
pub mod Trees
pub mod Parents
pub mod Laws
pub mod Steps
pub mod Undo
mod Tests
use akuapkg.Common.{
  ℕ, Text, text, text_eq, split, join, Bool, true, false, not, ◌||◌, Option, none, some, List, [],
  ◌∷◌, filter, length, if◌then◌else◌,
}
use akuapkg.Common.Result.{Result, ok, err, ◌>>=◌, ◌>>◌, fail_if}

mutual
  pub data Node : Type 0 where
    file : List ℕ → ℕ → Node
    dir : Entries → Node

  -- a Map from names to nodes, in insertion order
  pub data Entries : Type 0 where
    no_entries : Entries
    named : Text → Node → Entries → Entries

pub data FsCode : Type 0 where
  enoent eexist enotdir eisdir enotempty : FsCode

pub record FsError : Type 0 where
  pub code : FsCode
  pub path : Text

abbrev pub fs_error : FsCode → Text → FsError
fs_error code path = record { code = code; path = path }

unfoldable pub get_entry : Text → Entries → Option Node
get_entry name no_entries = none
get_entry name (named n node rest) =
    let later = get_entry name rest in if text_eq n name then some node else later

-- a name that is there keeps its place
unfoldable pub set_entry : Text → Node → Entries → Entries
set_entry name node no_entries = named name node no_entries
set_entry name node (named n old rest) =
    let later = set_entry name node rest in
    if text_eq n name then named n node rest else named n old later

unfoldable pub delete_entry : Text → Entries → Entries
delete_entry name no_entries = no_entries
delete_entry name (named n old rest) =
    let later = delete_entry name rest in if text_eq n name then later else named n old later

unfoldable pub names : Entries → List Text
names no_entries = []
names (named n node rest) = n ∷ names rest

abbrev pub is_part : Text → Bool
is_part part = not (text_eq part [] || text_eq part (text "."))

abbrev pub parts : Text → List Text
parts path = filter is_part (split b'/' path)

-- the loop of `lookup`
unfoldable pub walk : List Text → Node → Option Node
walk [] node = some node
walk (part ∷ rest) (file bytes mode) = none
walk (part ∷ rest) (dir es) = elim (get_entry part es) [ none ↦ none | some node ↦ walk rest node ]

abbrev pub lookup : Text → Node → Option Node
lookup path root = walk (parts path) root

-- `all.at(-1)` and `all.slice(0, -1)`
unfoldable pub last_part : List Text → Option Text
last_part [] = none
last_part (part ∷ []) = some part
last_part (part ∷ more ∷ rest) = last_part (more ∷ rest)

unfoldable pub without_last : List Text → List Text
without_last [] = []
without_last (part ∷ []) = []
without_last (part ∷ more ∷ rest) = part ∷ without_last (more ∷ rest)

abbrev pub parent_path : Text → Text
parent_path path = join b'/' (without_last (parts path))

abbrev need_name : Text → Option Text → Result FsError Text
need_name path none = err (fs_error enoent path)
need_name path (some name) = ok name

abbrev need_dir : Text → Option Node → Result FsError Entries
need_dir path none = err (fs_error enoent path)
need_dir path (some (file bytes mode)) = err (fs_error enotdir path)
need_dir path (some (dir es)) = ok es

-- `parent`: a name, and the entries of the directory that is to hold it
unfoldable pub parent : Text → Node → Result FsError (Text × Entries)
parent path root = do
  name ← need_name path (last_part (parts path))
  es ← need_dir path (lookup (parent_path path) root)
  ok (name, es)

-- the tree in which the directory at the end of the path has other entries
unfoldable pub with_entries : List Text → Entries → Node → Node
with_entries [] es node = dir es
with_entries (part ∷ rest) es (file bytes mode) = file bytes mode
with_entries (part ∷ rest) es (dir own) = elim (get_entry part own) [
  | none ↦ dir own
  | some node ↦ dir (set_entry part (with_entries rest es node) own)
]

-- the entries of the parent of `path` are changed in place
abbrev pub change_parent : Text → Node → (Text → Entries → Entries) → Result FsError Node
change_parent path root change = do
  at ← parent path root
  ok (with_entries (parts (parent_path path)) (change at.0 at.1) root)

abbrev pub need_node : Text → Option Node → Result FsError Node
need_node path none = err (fs_error enoent path)
need_node path (some node) = ok node

abbrev pub not_dir : Text → Node → Result FsError (List ℕ × ℕ)
not_dir path (file bytes mode) = ok (bytes, mode)
not_dir path (dir es) = err (fs_error eisdir path)

abbrev pub is_dir : Text → Node → Result FsError Entries
is_dir path (file bytes mode) = err (fs_error enotdir path)
is_dir path (dir es) = ok es

unfoldable pub unlink : Text → Node → Result FsError Node
unlink path root = do
  node ← need_node path (lookup path root)
  found ← not_dir path node
  change_parent path root delete_entry

unfoldable pub readdir : Text → Node → Result FsError (List Text)
readdir path root = do
  node ← need_node path (lookup path root)
  es ← is_dir path node
  ok (names es)

abbrev must_miss : Text → Option Node → Result FsError (Unit {0})
must_miss path none = ok tt
must_miss path (some node) = err (fs_error eexist path)

unfoldable pub mkdir : Text → Node → Result FsError Node
mkdir path root = do
  must_miss path (lookup path root)
  change_parent path root (λ name. set_entry name (dir no_entries))

abbrev is_inhabited : Entries → Bool
is_inhabited no_entries = false
is_inhabited (named n node rest) = true

unfoldable pub rmdir : Text → Node → Result FsError Node
rmdir path root = do
  node ← need_node path (lookup path root)
  es ← is_dir path node
  fail_if (is_inhabited es) (fs_error enotempty path)
  change_parent path root delete_entry

-- the fields of `stats` that depend on the node
pub record Stats : Type 0 where
  pub is_directory : Bool
  pub mode : ℕ
  pub size : ℕ
  pub ino : ℕ

abbrev pub stats : Node → ℕ → Stats
stats (file bytes mode) ino = record {
  is_directory = false;
  mode = mode;
  size = length bytes;
  ino = ino;
}
stats (dir es) ino = record { is_directory = true; mode = 0o40755; size = 0; ino = ino }

unfoldable pub stat : Text → Node → Result FsError Stats
stat path root = do node ← need_node path (lookup path root); ok (stats node (length (parts path)))

-- bytes or text, as `writeFile` takes them and `readFile` returns them
pub data Content : Type 0 where
  bytes : List ℕ → Content
  string : Text → Content

-- the platform's UTF-8 encoder and decoder
module _ (encode : Text → List ℕ) (decode : List ℕ → Text) where
  unfoldable pub to_bytes : Content → List ℕ
  to_bytes (bytes b) = b
  to_bytes (string s) = encode s

  -- `encoding` is that of the options
  unfoldable pub read_file : Text → Option Text → Node → Result FsError Content
  read_file path encoding root = do
    node ← need_node path (lookup path root)
    found ← not_dir path node
    ok (elim encoding [ none ↦ bytes found.0 | some name ↦ string (decode found.0) ])

  unfoldable pub write_file : Text → Content → Option ℕ → Node → Result FsError Node
  write_file path content mode root = change_parent path root (λ name.
      set_entry name (file (to_bytes content) (elim mode [ none ↦ 0o100644 | some m ↦ m ])))
