-- ===== src/Manifest/Selectors.antt =====
-- A validated `crds` selector names something inside the source.
use akuapkg.Common.{
  ℕ, suc, ◌≡◌, ◌≢◌, refl, Text, text, text_eq, text_eq_iff, split, split_by, Bool, true, false,
  none, some, List, [], ◌∷◌, any, ◌==◌, arith,
}
use akuapkg.Common.Result.{ok}
use akuapkg.Manifest.{Dependency, selector, is_separator, is_outside, validate_dependency}
use akuapkg.Snapshot.{resolve_in_snapshot}
use akuapkg.Snapshot.Paths.{escapes, resolve_in_snapshot-eq-none_iff}

abbrev is_slash : ℕ → Bool
is_slash a = a == b'/'

abbrev is_parent : Text → Bool
is_parent part = text_eq part (text "..")

-- a first part without separators is the first part of the finer split too
first-finer :
    (s w : Text)
    → (split_by is_slash s).0 ≡ w
    → any is_separator w ≡ false
    → (split_by is_separator s).0 ≡ w
unfolding split_by
first-finer [] w h k = h
first-finer (a ∷ s) [] h k = ground arith
first-finer (a ∷ s) (b ∷ w) h k = ground (arith, first-finer s w)

any-finer :
    (s : Text)
    → any is_parent (split_by is_slash s).1 ≡ true
    → any is_parent (split_by is_separator s).1 ≡ true
unfolding split_by
any-finer [] h = h
any-finer (a ∷ s) h = ground (
  arith,
  any-finer s,
  first-finer s (text ".."),
  text_eq_iff (split_by is_slash s).0 (text ".."),
  text_eq_iff (split_by is_separator s).0 (text ".."),
)

no_parent :
    (s : Text)
    → (let (first, more) = split_by is_separator s in any is_parent (first ∷ more)) ≡ false
    → any is_parent (split b'/' s) ≡ false
no_parent s h = ground (
  arith,
  any-finer s,
  first-finer s (text ".."),
  text_eq_iff (split_by is_slash s).0 (text ".."),
  text_eq_iff (split_by is_separator s).0 (text ".."),
)

escapes_of_no_parent :
    (depth : ℕ) (segments : List Text)
    → any is_parent segments ≡ false
    → escapes depth segments ≡ false
unfolding escapes
escapes_of_no_parent depth [] h = refl
escapes_of_no_parent depth (x ∷ xs) h =
    ground (arith, escapes_of_no_parent depth xs, escapes_of_no_parent (suc depth) xs)

resolves : (s : Text) → is_outside s ≡ false → resolve_in_snapshot s ≢ none
unfolding is_outside
resolves s h e =
    ground
      (arith, resolve_in_snapshot-eq-none_iff s, no_parent s, escapes_of_no_parent 0 (split b'/' s))

selector_inside :
    (name s : Text) (d : Dependency)
    → d.crds ≡ some (selector s)
    → validate_dependency name d ≡ ok tt
    → is_outside s ≡ false
unfolding validate_dependency
selector_inside name s d e h = ground arith

-- The selector of a validated dependency is never refused by the path resolution that reads it.
pub validate_dependency-resolves :
    (name s : Text) (d : Dependency)
    → d.crds ≡ some (selector s)
    → validate_dependency name d ≡ ok tt
    → resolve_in_snapshot s ≢ none
validate_dependency-resolves name s d e h = resolves s (selector_inside name s d e h)
