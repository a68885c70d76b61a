-- ===== src/MemoryFs/Laws.antt =====
-- What the operations do to the tree, seen through the other operations.
use akuapkg.Common.{
  ℕ, ◌≡◌, refl, ap, ◌∙◌, Text, text_eq_refl, false, Option, none, some, List, [], ◌∷◌, arith,
  length,
}
use akuapkg.Common.Result.{ok, err, >>=-eq-ok}
use akuapkg.MemoryFs.{
  Node, file, dir, Entries, set_entry, delete_entry, walk, with_entries, enoent, fs_error, parts,
  without_last, change_parent, lookup, need_node, not_dir, unlink, stat, Content, bytes, to_bytes,
  read_file, write_file,
}
use akuapkg.MemoryFs.Trees.{get-set_entry, get-delete_entry, walk-with_entries}
use akuapkg.MemoryFs.Parents.{IsChange, change_parent-eq-ok}

-- what stands at a changed path is what its directory now has under the last name
walk-IsChange :
    (path : Text) (root : Node) (change : Text → Entries → Entries) (next : Node)
    → ((c : IsChange path root change next)
        → walk (parts path) next ≡ walk (c.0 ∷ []) (dir (change c.0 c.1)))
walk-IsChange path root change next (name, own, e, found, n) = rw n (
    ap (λ ps. walk ps (with_entries (without_last (parts path)) (change name own) root)) e
    ∙ walk-with_entries (without_last (parts path)) (change name own) own root (name ∷ []) found)

walk-set :
    (path : Text) (root node next : Node)
    → change_parent path root (λ name. set_entry name node) ≡ ok next
    → lookup path next ≡ some node
unfolding walk
walk-set path root node next h =
    let c = change_parent-eq-ok path root _ next h in
    walk-IsChange path root _ next c
    ∙ ground (arith, get-set_entry c.0 c.0 node c.1, text_eq_refl c.0)

walk-delete :
    (path : Text) (root next : Node)
    → change_parent path root delete_entry ≡ ok next
    → lookup path next ≡ none
unfolding walk
walk-delete path root next h =
    let c = change_parent-eq-ok path root _ next h in
    walk-IsChange path root _ next c
    ∙ ground (arith, get-delete_entry c.0 c.0 c.1, text_eq_refl c.0)

unlink-change :
    (path : Text) (root next : Node)
    → unlink path root ≡ ok next
    → change_parent path root delete_entry ≡ ok next
unfolding unlink
unlink-change path root next h =
    let (node, _, h1) = >>=-eq-ok (need_node path (lookup path root)) _ h in
    let (_, _, h2) = >>=-eq-ok (not_dir path node) _ h1 in h2

module _ (encode : Text → List ℕ) (decode : List ℕ → Text) where
  -- A file that `writeFile` has written is read back as the bytes that were written, and `stat`
  -- tells their number and the mode that was asked for.
  pub read_file-write_file :
      (path : Text) (content : Content) (mode : ℕ) (root next : Node)
      → write_file encode decode path content (some mode) root ≡ ok next
      → (read_file encode decode path none next ≡ ok (bytes (to_bytes encode decode content)))
        × (stat path next
            ≡ ok (record {
              is_directory = false;
              mode = mode;
              size = length (to_bytes encode decode content);
              ino = length (parts path);
            }))
  unfolding read_file write_file stat
  read_file-write_file path content mode root next h =
      let e = walk-set path root (file (to_bytes encode decode content) mode) next h in
      (rw e refl, rw e refl)

  -- A path that `unlink` has removed is no longer there: reading it fails with ENOENT.
  pub read_file-unlink :
      (path : Text) (encoding : Option Text) (root next : Node)
      → unlink path root ≡ ok next
      → read_file encode decode path encoding next ≡ err (fs_error enoent path)
  unfolding read_file
  read_file-unlink path encoding root next h =
      rw (walk-delete path root next (unlink-change path root next h)) refl
