-- ===== src/MemoryFs/Parents.antt =====
-- The parent that a change finds by its path is the directory at all parts but the last.
use akuapkg.Common.{
  ◌≡◌, refl, ap, ◌∙◌, sym, Text, text_eq, split, split_by, join, Bool, true, Option, none, some,
  List, [], ◌∷◌, ◌++◌, filter, All, All-filter, All-filter_test, arith,
}
use akuapkg.Common.Split.{Lacks, split-Lacks, split-join}
use akuapkg.Common.Result.{ok, >>=-eq-ok}
use akuapkg.MemoryFs.{
  Node, file, dir, Entries, walk, with_entries, parts, is_part, last_part, without_last,
  parent_path, parent, change_parent, lookup, need_name, need_dir,
}

without_last-All {ℓ} : (P : Text → Type ℓ) (ps : List Text) → All P ps → All P (without_last ps)
unfolding without_last
without_last-All P [] h = tt
without_last-All P (p ∷ []) h = tt
without_last-All P (p ∷ q ∷ ps) h = (h.0, without_last-All P (q ∷ ps) h.1)

filter-All : (p : Text → Bool) (xs : List Text) → All (λ x. p x ≡ true) xs → filter p xs ≡ xs
filter-All p [] h = refl
filter-All p (x ∷ xs) h = rw (h.0) (ap (◌∷◌ x) (filter-All p xs h.1))

parts-join :
    (ps : List Text)
    → All (Lacks b'/') ps
    → All (λ p. is_part p ≡ true) ps
    → parts (join b'/' ps) ≡ ps
parts-join [] h k = (unfold join split_by text_eq in refl)
parts-join (p ∷ ps) h k =
    ap (filter is_part) (split-join b'/' p ps h) ∙ filter-All is_part (p ∷ ps) k

-- the path of the parent, joined and split again, has the parts that it is made of
pub parts-parent_path : (path : Text) → parts (parent_path path) ≡ without_last (parts path)
parts-parent_path path =
    parts-join (without_last (parts path))
      (without_last-All (Lacks b'/') (parts path)
        (All-filter (Lacks b'/') is_part (split b'/' path) (split-Lacks b'/' path)))
      (without_last-All (λ p. is_part p ≡ true) (parts path)
        (All-filter_test is_part (split b'/' path)))

without_last-append :
    (ps : List Text) (name : Text) → last_part ps ≡ some name → ps ≡ without_last ps ++ name ∷ []
unfolding last_part without_last
without_last-append [] name h = absurd (ground arith)
without_last-append (p ∷ []) name h = ground arith
without_last-append (p ∷ q ∷ ps) name h = ap (◌∷◌ p) (without_last-append (q ∷ ps) name h)

-- `next` is `root` with one directory changed: the parent of the last part of `path`
abbrev pub IsChange : Text → Node → (Text → Entries → Entries) → Node → Type 0
IsChange path root change next =
    (name : Text) × (own : Entries) × (parts path ≡ without_last (parts path) ++ name ∷ [])
    × (walk (without_last (parts path)) root ≡ some (dir own))
    × (next ≡ with_entries (without_last (parts path)) (change name own) root)

need_name-eq-ok :
    (path : Text) (o : Option Text) (name : Text) → need_name path o ≡ ok name → o ≡ some name
need_name-eq-ok path none name h = absurd (ground arith)
need_name-eq-ok path (some n) name h = ground arith

need_dir-eq-ok :
    (path : Text) (o : Option Node) (es : Entries) → need_dir path o ≡ ok es → o ≡ some (dir es)
need_dir-eq-ok path none es h = absurd (ground arith)
need_dir-eq-ok path (some (file bytes mode)) es h = absurd (ground arith)
need_dir-eq-ok path (some (dir own)) es h = ground arith

parent-eq-ok :
    (path : Text) (root : Node) (at : Text × Entries)
    → parent path root ≡ ok at
    → (last_part (parts path) ≡ some at.0)
      × (walk (without_last (parts path)) root ≡ some (dir at.1))
unfolding parent
parent-eq-ok path root at h =
    let (name, h1, h2) = >>=-eq-ok (need_name path (last_part (parts path))) _ h in
    let (es, h3, h4) = >>=-eq-ok (need_dir path (lookup (parent_path path) root)) _ h2 in
    let e : (name, es) ≡ at = ground arith in
    (
      need_name-eq-ok path _ at.0 (h1 ∙ ap (λ (a : Text × Entries). ok a.0) e),
      ap (λ ps. walk ps root) (sym (parts-parent_path path))
          ∙ need_dir-eq-ok path _ at.1 (h3 ∙ ap (λ (a : Text × Entries). ok a.1) e),
    )

pub change_parent-eq-ok :
    (path : Text) (root : Node) (change : Text → Entries → Entries) (next : Node)
    → change_parent path root change ≡ ok next
    → IsChange path root change next
change_parent-eq-ok path root change next h =
    let (at, h1, h2) = >>=-eq-ok (parent path root) _ h in
    let (last, found) = parent-eq-ok path root at h1 in
    (
      at.0,
      at.1,
      without_last-append (parts path) at.0 last,
      found,
      sym (ground (arith, h2))
          ∙ ap (λ ps. with_entries ps (change at.0 at.1) root) (parts-parent_path path),
    )
