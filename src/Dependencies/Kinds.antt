-- ===== src/Dependencies/Kinds.antt =====
-- host/src/dependencies.effect.ts: the kind of a dependency's tree, by its marker files.
use akuapkg.Common.{
  Text, text, text_eq, compare_text, includes, split, join, Bool, not, ◌&&◌, Option, none, some,
  List, [], ◌∷◌, ◌++◌, map, any, all, if◌then◌else◌,
}
use akuapkg.Common.Sort.{to_sorted}
use akuapkg.Snapshot.{Snapshot}

pub data DependencyKind : Type 0 where
  helm_chart kcl_module akua_package crd_source : DependencyKind

abbrev pub markers : List (DependencyKind × List Text)
markers =
    (helm_chart, text "Chart.yaml" ∷ [])
    ∷ (kcl_module, text "kcl.mod" ∷ [])
    ∷ (akua_package, text "akua.toml" ∷ text "package.k" ∷ [])
    ∷ []

unfoldable pub has_file : Snapshot → Text → Bool
has_file files name = any (λ entry. text_eq entry.0 name) files

-- `slice(0, -1)`
unfoldable pub but_last : List Text → List Text
but_last [] = []
but_last (part ∷ []) = []
but_last (part ∷ other ∷ parts) = part ∷ but_last (other ∷ parts)

-- a `Set` of texts, in insertion order
unfoldable pub add_new : List Text → List Text → List Text
add_new seen [] = []
add_new seen (name ∷ names) =
    let old = add_new seen names in
    let new = add_new (name ∷ seen) names in if any (text_eq name) seen then old else name ∷ new

abbrev pub directories_of : Snapshot → List Text
directories_of files =
    to_sorted compare_text
      (add_new [] (map (λ entry. join b'/' (but_last (split b'/' entry.0))) files))

abbrev pub has_markers : Snapshot → Text → List Text → Bool
has_markers files prefix names = all (λ marker. has_file files (prefix ++ marker)) names

-- the loop over the directories, for one kind
unfoldable pub marked_directory : Snapshot → List Text → List Text → Option Text
marked_directory files names [] = none
marked_directory files names (directory ∷ rest) =
    let later = marked_directory files names rest in
    if not (text_eq directory [])
      && not (includes directory b'/')
      && has_markers files (directory ++ text "/") names
    then some directory
    else later

-- a kind, and the prefix its root is at
abbrev pub Detected : Type 0
Detected = DependencyKind × Text

-- the loop over the kinds
unfoldable pub detect_from : Snapshot → List (DependencyKind × List Text) → Detected
detect_from files [] = (helm_chart, [])
detect_from files ((kind, names) ∷ rest) =
    let later = detect_from files rest in
    if has_markers files [] names
    then (kind, [])
    else elim (marked_directory files names (directories_of files)) [
      | some directory ↦ (kind, directory)
      | none ↦ later
    ]

abbrev pub detect_kind : Snapshot → Detected
detect_kind files = detect_from files markers
