-- ===== src/Snapshot/Digest.antt =====
-- host/src/snapshot.effect.ts: `treeDigest`. The hash is the platform's, an argument, as is the encoder.
use akuapkg.Common.{ℕ, Text, text, text_eq, List, [], ◌∷◌, ◌++◌, map, if◌then◌else◌}
use akuapkg.Common.Sort.{to_sorted}
use akuapkg.Snapshot.{Snapshot, compare_paths}

-- `files.get(name) ?? new Uint8Array()`
unfoldable pub content_of : Snapshot → Text → List ℕ
content_of [] name = []
content_of ((key, bytes) ∷ files) name =
    let rest = content_of files name in if text_eq key name then bytes else rest

module _ (encode : Text → List ℕ) where
  -- what the rounds of the loop hand to the hasher
  unfoldable pub framed : Snapshot → List Text → List ℕ
  framed files [] = []
  framed files (name ∷ names) =
      encode name ++ (0 ∷ content_of files name ++ (10 ∷ framed files names))

  unfoldable pub tree_bytes : Snapshot → List ℕ
  tree_bytes files = framed files (to_sorted compare_paths (map (λ entry. entry.0) files))

  -- `hash` gives the hexadecimal digits
  abbrev pub tree_digest : (List ℕ → Text) → Snapshot → Text
  tree_digest hash files = text "sha256:" ++ hash (tree_bytes files)
