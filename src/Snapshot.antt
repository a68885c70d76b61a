-- ===== src/Snapshot.antt =====
-- host/src/snapshot.effect.ts: Package-relative paths and subtrees of an in-memory tree; the order
-- of paths is that of host/src/walk.effect.ts.
pub mod Paths
pub mod Order
pub mod Load
pub mod Digest
pub mod Inside
pub mod Walk
pub mod Kept
mod Tests
use akuapkg.Common.{
  Text, text, text_eq, compare_text, starts_with, split, join, length, drop, ◌+◌, Ordering, Bool,
  true, false, ◌||◌, Option, none, some, List, [], ◌∷◌, ◌++◌, filter, map, any, if◌then◌else◌,
}
use akuapkg.Common.Sort.{to_sorted}
use mathlib.Core.List.{reverse}
use mathlib.Core.Option

-- one round of the loop of `resolveInSnapshot`; the last segment of `out` is the head
unfoldable pub step : List Text → Text → Option (List Text)
step out segment =
    if text_eq segment [] || text_eq segment (text ".")
    then some out
    else if text_eq segment (text "..")
    then elim out [ [] ↦ none | last ∷ rest ↦ some rest ]
    else some (segment ∷ out)

unfoldable pub resolve_segments : List Text → List Text → Option (List Text)
resolve_segments out [] = some (reverse out)
resolve_segments out (segment ∷ rest) = elim (step out segment) [
  | none ↦ none
  | some next ↦ resolve_segments next rest
]

unfoldable pub resolve_in_snapshot : Text → Option Text
resolve_in_snapshot requested =
    if starts_with requested (text "/")
    then none
    else Option.map (join b'/') (resolve_segments [] (split b'/' requested))

-- files by path, in insertion order
abbrev pub Snapshot : Type 0
Snapshot = List (Text × Text)

unfoldable pub subtree : Snapshot → Text → Snapshot
subtree snapshot prefix =
    if text_eq prefix []
    then snapshot
    else map (λ file. (drop (length prefix + 1) file.0, file.1))
        (filter (λ file. starts_with file.0 (prefix ++ text "/")) snapshot)

-- `comparePaths` of walk.effect.ts, on the parts of the two paths
unfoldable pub compare_parts : List Text → List Text → Ordering
compare_parts [] [] = Ordering.eq
compare_parts [] (b ∷ bs) = Ordering.lt
compare_parts (a ∷ as') [] = Ordering.gt
compare_parts (a ∷ as') (b ∷ bs) =
    let rest = compare_parts as' bs in
    if text_eq a b
    then rest
    else elim (compare_text a b) [ Ordering.lt ↦ Ordering.lt | _ ↦ Ordering.gt ]

unfoldable pub compare_paths : Text → Text → Ordering
compare_paths a b = compare_parts (split b'/' a) (split b'/' b)

-- `skippedName` of walk.effect.ts
unfoldable pub skipped_name : Text → Bool
skipped_name name =
    starts_with name (text ".")
    || any (text_eq name) (
        text "deploy"
        ∷ text "rendered"
        ∷ text "out"
        ∷ text "target"
        ∷ text "node_modules"
        ∷ text "dist"
        ∷ [])
