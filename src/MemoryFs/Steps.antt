-- ===== src/MemoryFs/Steps.antt =====
-- One successful change, whichever operation makes it, and what it leaves alone.
use akuapkg.Common.{ℕ, ◌≡◌, refl, ap, ◌∙◌, sym, Text, text_eq, false, Option, none, some, List}
use akuapkg.Common.Result.{Result, ok, err, >>=-eq-ok, fail_if}
use akuapkg.MemoryFs.{
  Node, file, dir, Entries, no_entries, get_entry, set_entry, delete_entry, FsError, enoent, eisdir,
  fs_error, is_inhabited, must_miss, parts, without_last, change_parent, lookup, need_node, not_dir,
  is_dir, unlink, mkdir, rmdir, Content, bytes, string, read_file, write_file,
}
use akuapkg.MemoryFs.Trees.{
  get-set_entry, get-delete_entry, Glance, absent, a_dir, a_file, glance, is_prefix,
  glance-with_entries,
}
use akuapkg.MemoryFs.Parents.{IsChange, change_parent-eq-ok}

module _ (encode : Text → List ℕ) (decode : List ℕ → Text) where
  -- an operation at `path` that succeeds
  pub data Step : Text → Node → Node → Type 0 where
    writes :
        {path : Text} {root next : Node} (content : Content) (mode : Option ℕ)
        → write_file encode decode path content mode root ≡ ok next
        → Step path root next
    unlinks : {path : Text} {root next : Node} → unlink path root ≡ ok next → Step path root next
    makes : {path : Text} {root next : Node} → mkdir path root ≡ ok next → Step path root next
    removes : {path : Text} {root next : Node} → rmdir path root ≡ ok next → Step path root next

  -- a change that touches the entry it names, and no other
  abbrev IsLocal : (Text → Entries → Entries) → Type 0
  IsLocal change =
      (name m : Text) (es : Entries)
      → text_eq name m ≡ false
      → get_entry m (change name es) ≡ get_entry m es

  set-IsLocal : (node : Node) → IsLocal (λ name. set_entry name node)
  set-IsLocal node name m es h = get-set_entry m name node es ∙ (rw h refl)

  delete-IsLocal : IsLocal delete_entry
  delete-IsLocal name m es h = get-delete_entry m name es ∙ (rw h refl)

  Step-change :
      (path : Text) (root next : Node)
      → Step path root next
      → (change : Text → Entries → Entries) × IsLocal change
        × (change_parent path root change ≡ ok next)
  unfolding write_file unlink mkdir rmdir
  Step-change path root next (writes content mode h) = (_, set-IsLocal _, h)
  Step-change path root next (unlinks h) =
      let (node, _, h1) = >>=-eq-ok (need_node path (lookup path root)) _ h in
      let (_, _, h2) = >>=-eq-ok (not_dir path node) _ h1 in (delete_entry, delete-IsLocal, h2)
  Step-change path root next (makes h) =
      let (_, _, h1) = >>=-eq-ok (must_miss path (lookup path root)) _ h in
      (_, set-IsLocal (dir no_entries), h1)
  Step-change path root next (removes h) =
      let (node, _, h1) = >>=-eq-ok (need_node path (lookup path root)) _ h in
      let (es, _, h2) = >>=-eq-ok (is_dir path node) _ h1 in
      let (_, _, h3) = >>=-eq-ok (fail_if (is_inhabited es) _) _ h2 in
      (delete_entry, delete-IsLocal, h3)

  glance-change :
      (path other : Text) (root next : Node) (change : Text → Entries → Entries)
      → IsLocal change
      → IsChange path root change next
      → is_prefix (parts path) (parts other) ≡ false
      → glance (lookup other next) ≡ glance (lookup other root)
  glance-change path other root next change local (name, own, e, found, n) apart = rw n (
      glance-with_entries name (without_last (parts path)) (parts other) (change name own) own root
        found (λ m. local name m own) (sym (ap (λ ps. is_prefix ps (parts other)) e) ∙ apart))

  -- what `readFile` makes of what it finds
  abbrev outcome : Text → Option Text → Glance → Result FsError Content
  outcome path encoding absent = err (fs_error enoent path)
  outcome path encoding a_dir = err (fs_error eisdir path)
  outcome path encoding (a_file b mode) =
      ok (elim encoding [ none ↦ bytes b | some name ↦ string (decode b) ])

  read_file-outcome :
      (path : Text) (encoding : Option Text) (root : Node) (found : Option Node)
      → lookup path root ≡ found
      → read_file encode decode path encoding root ≡ outcome path encoding (glance found)
  unfolding read_file
  read_file-outcome path encoding root none h = rw h refl
  read_file-outcome path encoding root (some (file b mode)) h = rw h refl
  read_file-outcome path encoding root (some (dir es)) h = rw h refl

  -- Whatever operation succeeds at a path, a file that is neither there nor below it is read as
  -- before, with the same error where it cannot be read.
  pub read_file-frame :
      (path other : Text) (encoding : Option Text) (root next : Node)
      → Step path root next
      → is_prefix (parts path) (parts other) ≡ false
      → read_file encode decode other encoding next ≡ read_file encode decode other encoding root
  read_file-frame path other encoding root next step apart =
      let (change, local, h) = Step-change path root next step in
      read_file-outcome other encoding next (lookup other next) refl
      ∙ ap (outcome other encoding) (
          glance-change path other root next change local
            (change_parent-eq-ok path root change next h) apart)
      ∙ sym (read_file-outcome other encoding root (lookup other root) refl)
