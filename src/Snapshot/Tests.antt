-- ===== src/Snapshot/Tests.antt =====
-- Runs of the path functions, and their theorems at concrete inputs.
use akuapkg.Common.{
  ◌≡◌, ◌↔◌, ◌⊎◌, refl, Text, text, text_eq, compare_text, starts_with, split_by, split, join, flip,
  Ordering, true, false, none, some, List, [], ◌∷◌, All,
}
use akuapkg.Snapshot.{
  resolve_segments, step, resolve_in_snapshot, compare_paths, compare_parts, subtree, skipped_name,
}
use akuapkg.Snapshot.Paths.{
  IsPlain, escapes, resolve_in_snapshot-IsPlain, resolve_in_snapshot-eq-none_iff,
}
use akuapkg.Snapshot.Order.{compare_paths_order}

resolve_run :
    (resolve_in_snapshot (text "./a//b/../c") ≡ some (text "a/c"))
    × (resolve_in_snapshot (text "a/../..") ≡ none)
    × (resolve_in_snapshot (text "/etc") ≡ none)
unfolding resolve_in_snapshot resolve_segments step text_eq starts_with split_by join
resolve_run = (refl, refl, refl)

names_run : (skipped_name (text ".git") ≡ true) × (skipped_name (text "outer") ≡ false)
unfolding skipped_name starts_with text_eq
names_run = (refl, refl)

subtree_run :
    subtree ((text "a/b", text "1") ∷ (text "ab", text "2") ∷ []) (text "a")
    ≡ (text "b", text "1") ∷ []
unfolding subtree starts_with text_eq
subtree_run = refl

resolve_in_snapshot-IsPlain_example :
    (parts : List Text) × (text "a/c" ≡ join b'/' parts) × All IsPlain parts
resolve_in_snapshot-IsPlain_example =
    resolve_in_snapshot-IsPlain (text "./a//b/../c") (text "a/c") resolve_run.0

resolve_in_snapshot-eq-none_iff_example : (resolve_in_snapshot (text "a/../..") ≡ none) ↔ (
    (starts_with (text "a/../..") (text "/") ≡ true)
    ⊎ (escapes 0 (split b'/' (text "a/../..")) ≡ true))
resolve_in_snapshot-eq-none_iff_example = resolve_in_snapshot-eq-none_iff (text "a/../..")

paths_run : compare_paths (text "a/b") (text "a-b") ≡ Ordering.lt
unfolding compare_paths compare_parts split_by text_eq compare_text
paths_run = refl

compare_paths_order_example :
    (compare_paths (text "a-b") (text "a/b") ≡ flip (compare_paths (text "a/b") (text "a-b")))
    × (compare_paths (text "a/b") (text "a-b") ≡ Ordering.eq → text "a/b" ≡ text "a-b")
    × (compare_paths (text "a/b") (text "a-b") ≡ Ordering.lt
        → compare_paths (text "a-b") (text "b") ≡ Ordering.lt
        → compare_paths (text "a/b") (text "b") ≡ Ordering.lt)
compare_paths_order_example = compare_paths_order (text "a/b") (text "a-b") (text "b")
