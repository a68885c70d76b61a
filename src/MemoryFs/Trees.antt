-- ===== src/MemoryFs/Trees.antt =====
-- Lookups in changed entries and changed trees.
use akuapkg.Common.{
  ℕ, ◌≡◌, refl, Text, text_eq, text_eq_iff, text_eq_refl, Bool, true, false, Option, none, some,
  List, [], ◌∷◌, ◌++◌, if◌then◌else◌, arith, Option-cases, Bool-cases, inl, inr,
}
use akuapkg.MemoryFs.{
  Node, file, dir, Entries, no_entries, named, get_entry, set_entry, delete_entry, walk,
  with_entries,
}

pub get-set_entry :
    (m n : Text) (node : Node) (es : Entries)
    → get_entry m (set_entry n node es) ≡ (if text_eq n m then some node else get_entry m es)
unfolding get_entry set_entry
get-set_entry m n node no_entries = refl
get-set_entry m n node (named k old rest) =
    ground (arith, get-set_entry m n node rest, text_eq_iff k n, text_eq_iff k m, text_eq_iff n m)

pub get-delete_entry :
    (m n : Text) (es : Entries)
    → get_entry m (delete_entry n es) ≡ (if text_eq n m then none else get_entry m es)
unfolding get_entry delete_entry
get-delete_entry m n no_entries = ground arith
get-delete_entry m n (named k old rest) =
    ground (arith, get-delete_entry m n rest, text_eq_iff k n, text_eq_iff k m, text_eq_iff n m)

-- a new name is taken away again
pub delete-set_entry :
    (n : Text) (node : Node) (es : Entries)
    → get_entry n es ≡ none
    → delete_entry n (set_entry n node es) ≡ es
unfolding get_entry set_entry delete_entry
delete-set_entry n node no_entries h = rw (text_eq_refl n) refl
delete-set_entry n node (named k old rest) h = ground (arith, delete-set_entry n node rest)

-- to set what is there changes nothing
pub set-get_entry :
    (n : Text) (node : Node) (es : Entries) → get_entry n es ≡ some node → set_entry n node es ≡ es
unfolding get_entry set_entry
set-get_entry n node no_entries h = absurd (ground arith)
set-get_entry n node (named k old rest) h = ground (arith, set-get_entry n node rest)

pub set-set_entry :
    (n : Text) (a b : Node) (es : Entries) → set_entry n a (set_entry n b es) ≡ set_entry n a es
unfolding set_entry
set-set_entry n a b no_entries = rw (text_eq_refl n) refl
set-set_entry n a b (named k old rest) = ground (arith, set-set_entry n a b rest)

-- below the changed directory one sees its new entries
pub walk-with_entries :
    (ps : List Text) (es own : Entries) (root : Node) (rest : List Text)
    → walk ps root ≡ some (dir own)
    → walk (ps ++ rest) (with_entries ps es root) ≡ walk rest (dir es)
unfolding walk with_entries
walk-with_entries [] es own root rest h = refl
walk-with_entries (p ∷ ps) es own (file bytes mode) rest h = absurd (ground arith)
walk-with_entries (p ∷ ps) es own (dir top) rest h = elim (Option-cases (get_entry p top)) [
  | inl e ↦ absurd (ground arith)
  | inr (node, e) ↦
      let below : walk ps node ≡ some (dir own) = ground arith in
      ground (
        arith,
        get-set_entry p p (with_entries ps es node) top,
        text_eq_refl p,
        walk-with_entries ps es own node rest below,
      )
]

-- what a reader can tell of a node without its entries
pub data Glance : Type 0 where
  absent a_dir : Glance
  a_file : List ℕ → ℕ → Glance

abbrev pub glance : Option Node → Glance
glance none = absent
glance (some (file bytes mode)) = a_file bytes mode
glance (some (dir es)) = a_dir

unfoldable pub is_prefix : List Text → List Text → Bool
is_prefix [] qs = true
is_prefix (p ∷ ps) [] = false
is_prefix (p ∷ ps) (q ∷ qs) = let rest = is_prefix ps qs in if text_eq p q then rest else false

-- the directory at `ps` changes at `name` alone: elsewhere everything looks as before
pub glance-with_entries :
    (name : Text) (ps qs : List Text) (es own : Entries) (root : Node)
    → walk ps root ≡ some (dir own)
    → ((m : Text) → text_eq name m ≡ false → get_entry m es ≡ get_entry m own)
    → is_prefix (ps ++ name ∷ []) qs ≡ false
    → glance (walk qs (with_entries ps es root)) ≡ glance (walk qs root)
unfolding walk with_entries is_prefix
glance-with_entries name [] [] es own (file bytes mode) h k a = absurd (ground arith)
glance-with_entries name [] [] es own (dir top) h k a = refl
glance-with_entries name [] (q ∷ qs) es own (file bytes mode) h k a = absurd (ground arith)
glance-with_entries name [] (q ∷ qs) es own (dir top) h k a = ground (arith, k q)
glance-with_entries name (p ∷ ps) qs es own (file bytes mode) h k a = refl
glance-with_entries name (p ∷ ps) [] es own (dir top) h k a =
    elim (Option-cases (get_entry p top)) [
      | inl e ↦ absurd (ground arith)
      | inr (node, e) ↦ rw (e, glance) refl
    ]
glance-with_entries name (p ∷ ps) (q ∷ qs) es own (dir top) h k a =
    elim (Option-cases (get_entry p top)) [
      | inl e ↦ absurd (ground arith)
      | inr (node, e) ↦
          let below : walk ps node ≡ some (dir own) = ground arith in
          elim (Bool-cases (text_eq p q)) [
            | inl same ↦ ground (
              arith,
              get-set_entry q p (with_entries ps es node) top,
              text_eq_iff p q,
              glance-with_entries name ps qs es own node below k,
            )
            | inr other ↦ ground (arith, get-set_entry q p (with_entries ps es node) top)
          ]
    ]

-- the last change of a directory counts
pub with-with_entries :
    (ps : List Text) (a b own : Entries) (root : Node)
    → walk ps root ≡ some (dir own)
    → with_entries ps a (with_entries ps b root) ≡ with_entries ps a root
unfolding walk with_entries
with-with_entries [] a b own root h = refl
with-with_entries (p ∷ ps) a b own (file bytes mode) h = refl
with-with_entries (p ∷ ps) a b own (dir top) h = elim (Option-cases (get_entry p top)) [
  | inl e ↦ absurd (ground arith)
  | inr (node, e) ↦
      let below : walk ps node ≡ some (dir own) = ground arith in
      ground (
        arith,
        get-set_entry p p (with_entries ps b node) top,
        text_eq_refl p,
        set-set_entry p (with_entries ps a node) (with_entries ps b node) top,
        with-with_entries ps a b own node below,
      )
]

-- a directory that is given its own entries is as it was
pub with_entries_same :
    (ps : List Text) (own : Entries) (root : Node)
    → walk ps root ≡ some (dir own)
    → with_entries ps own root ≡ root
unfolding walk with_entries
with_entries_same [] own root h = ground arith
with_entries_same (p ∷ ps) own (file bytes mode) h = refl
with_entries_same (p ∷ ps) own (dir top) h = elim (Option-cases (get_entry p top)) [
  | inl e ↦ absurd (ground arith)
  | inr (node, e) ↦
      let below : walk ps node ≡ some (dir own) = ground arith in
      ground (arith, with_entries_same ps own node below, set-get_entry p node top e)
]
