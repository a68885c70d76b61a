-- ===== src/Snapshot/Order.antt =====
-- `comparePaths` is a total order whose ties are equal paths.
use akuapkg.Common.{
  ◌≡◌, refl, ap, Text, text_eq_iff, compare_text-flip, compare_text_eq, compare_text_refl,
  compare_text_trans, flip, Ordering, List, [], ◌∷◌, arith, join, ◌∙◌, sym,
}
use akuapkg.Common.Split.{join-split}
use akuapkg.Snapshot.{compare_parts, compare_paths}

compare_parts-flip : (a b : List Text) → compare_parts b a ≡ flip (compare_parts a b)
unfolding compare_parts
compare_parts-flip [] [] = refl
compare_parts-flip [] (y ∷ ys) = refl
compare_parts-flip (x ∷ xs) [] = refl
compare_parts-flip (x ∷ xs) (y ∷ ys) = ground (
  arith,
  compare_parts-flip xs ys,
  compare_text-flip x y,
  compare_text_eq x y,
  compare_text_refl x,
  text_eq_iff x y,
  text_eq_iff y x,
)

compare_parts_eq : (a b : List Text) → compare_parts a b ≡ Ordering.eq → a ≡ b
unfolding compare_parts
compare_parts_eq [] [] h = refl
compare_parts_eq [] (y ∷ ys) h = cc
compare_parts_eq (x ∷ xs) [] h = cc
compare_parts_eq (x ∷ xs) (y ∷ ys) h = ground (arith, compare_parts_eq xs ys, text_eq_iff x y)

compare_parts_trans :
    (a b c : List Text)
    → compare_parts a b ≡ Ordering.lt
    → compare_parts b c ≡ Ordering.lt
    → compare_parts a c ≡ Ordering.lt
unfolding compare_parts
compare_parts_trans a [] [] h k = cc
compare_parts_trans [] (y ∷ ys) (z ∷ zs) h k = refl
compare_parts_trans [] b (z ∷ zs) h k = refl
compare_parts_trans (x ∷ xs) [] (z ∷ zs) h k = cc
compare_parts_trans a (y ∷ ys) [] h k = cc
compare_parts_trans (x ∷ xs) (y ∷ ys) (z ∷ zs) h k = ground (
  arith,
  compare_parts_trans xs ys zs,
  text_eq_iff x y,
  text_eq_iff y z,
  text_eq_iff x z,
  compare_text_trans x y z,
  compare_text_refl x,
  compare_text-flip x y,
)

-- The path order: swapping the sides flips the result, only equal paths tie, and "before" is
-- transitive.
pub compare_paths_order :
    (a b c : Text)
    → (compare_paths b a ≡ flip (compare_paths a b))
      × (compare_paths a b ≡ Ordering.eq → a ≡ b)
      × (compare_paths a b ≡ Ordering.lt
          → compare_paths b c ≡ Ordering.lt
          → compare_paths a c ≡ Ordering.lt)
unfolding compare_paths
compare_paths_order a b c = (
  compare_parts-flip _ _,
  λ h. sym (join-split _ a) ∙ ap (join _) (compare_parts_eq _ _ h) ∙ join-split _ b,
  compare_parts_trans _ _ _,
)
