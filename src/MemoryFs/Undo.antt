-- ===== src/MemoryFs/Undo.antt =====
-- A directory that is made and removed leaves the tree as it was.
use akuapkg.Common.{
  ◌≡◌, refl, ap, ◌∙◌, sym, Text, text_eq_refl, Option, none, some, List, [], ◌∷◌, ◌++◌, arith,
  Option-cases, inl, inr,
}
use mathlib.Core.List.{append-nil}
use akuapkg.Common.Result.{ok, >>=-eq-ok}
use akuapkg.MemoryFs.{
  Node, file, dir, Entries, no_entries, get_entry, set_entry, delete_entry, walk, with_entries,
  must_miss, parts, last_part, without_last, parent_path, parent, change_parent, lookup, mkdir,
  rmdir,
}
use akuapkg.MemoryFs.Trees.{
  get-set_entry, delete-set_entry, walk-with_entries, with-with_entries, with_entries_same,
}
use akuapkg.MemoryFs.Parents.{change_parent-eq-ok, parts-parent_path}

last_part-append : (ps : List Text) (name : Text) → last_part (ps ++ name ∷ []) ≡ some name
unfolding last_part
last_part-append [] name = refl
last_part-append (p ∷ []) name = refl
last_part-append (p ∷ q ∷ ps) name = last_part-append (q ∷ ps) name

walk-append :
    (ps rest : List Text) (root node : Node)
    → walk ps root ≡ some node
    → walk (ps ++ rest) root ≡ walk rest node
unfolding walk
walk-append [] rest root node h = ground arith
walk-append (p ∷ ps) rest (file bytes mode) node h = absurd (ground arith)
walk-append (p ∷ ps) rest (dir es) node h = elim (Option-cases (get_entry p es)) [
  | inl e ↦ absurd (ground arith)
  | inr (below, e) ↦ ground (arith, walk-append ps rest below node)
]

-- the parent is found where a directory stands at all parts but the last
pub change_parent_of :
    (path name : Text) (own : Entries) (root : Node) (change : Text → Entries → Entries)
    → parts path ≡ without_last (parts path) ++ name ∷ []
    → walk (without_last (parts path)) root ≡ some (dir own)
    → change_parent path root change
      ≡ ok (with_entries (without_last (parts path)) (change name own) root)
unfolding parent
change_parent_of path name own root change e found =
    let last : last_part (parts path) ≡ some name =
      ap last_part e ∙ last_part-append (without_last (parts path)) name in
    let here : lookup (parent_path path) root ≡ some (dir own) =
      ap (λ ps. walk ps root) (parts-parent_path path) ∙ found in
    rw (last, here)
      (ap (λ ps. ok (with_entries ps (change name own) root)) (parts-parent_path path))

must_miss-eq-ok : (path : Text) (o : Option Node) → must_miss path o ≡ ok tt → o ≡ none
must_miss-eq-ok path none h = refl
must_miss-eq-ok path (some node) h = absurd (ground arith)

module _ (path name : Text) (own : Entries) (root : Node)
    (e : parts path ≡ without_last (parts path) ++ name ∷ [])
    (found : walk (without_last (parts path)) root ≡ some (dir own)) where
  abbrev ps : List Text
  ps = without_last (parts path)

  abbrev made : Node
  made = with_entries ps (set_entry name (dir no_entries) own) root

  free : lookup path root ≡ none → get_entry name own ≡ none
  unfolding walk
  free h =
      let below : walk (name ∷ []) (dir own) ≡ none =
        sym (walk-append ps (name ∷ []) root (dir own) found)
        ∙ ap (λ qs. walk qs root) (sym e)
        ∙ h in
      elim (Option-cases (get_entry name own)) [
        | inl miss ↦ miss
        | inr (node, hit) ↦ absurd (ground arith)
      ]

  made_parent : walk ps made ≡ some (dir (set_entry name (dir no_entries) own))
  unfolding walk
  made_parent =
      ap (λ qs. walk qs made) (sym (append-nil ps))
      ∙ walk-with_entries ps (set_entry name (dir no_entries) own) own root [] found

  made_here : lookup path made ≡ some (dir no_entries)
  unfolding walk
  made_here =
      ap (λ qs. walk qs made) e
      ∙ walk-append ps (name ∷ []) made _ made_parent
      ∙ ground (arith, get-set_entry name name (dir no_entries) own, text_eq_refl name)

  rmdir-made : get_entry name own ≡ none → rmdir path made ≡ ok root
  unfolding rmdir
  rmdir-made miss = rw (made_here) (
      change_parent_of path name (set_entry name (dir no_entries) own) made delete_entry e
        made_parent
      ∙ ap ok (
          with-with_entries ps _ (set_entry name (dir no_entries) own) own root found
          ∙ ap (λ es. with_entries ps es root) (delete-set_entry name (dir no_entries) own miss)
          ∙ with_entries_same ps own root found))

-- A directory that `mkdir` has made can be removed, and the tree is then exactly the one before.
pub rmdir-mkdir :
    (path : Text) (root next : Node) → mkdir path root ≡ ok next → rmdir path next ≡ ok root
unfolding mkdir
rmdir-mkdir path root next h =
    let (_, h0, h1) = >>=-eq-ok (must_miss path (lookup path root)) _ h in
    let (name, own, e, found, n) = change_parent-eq-ok path root _ next h1 in
    rw n (
      rmdir-made path name own root e found
        (free path name own root e found (must_miss-eq-ok path (lookup path root) h0)))
