-- ===== src/Common/Sort.antt =====
-- `Array.prototype.toSorted` with a comparator: the stable sort, as insertion from the right.
use Prim.Native.Nat.{Ordering}
use mathlib.Core.Path.{◌≡◌, refl, ◌∙◌, ap}
use mathlib.Core.Bool.{Bool, true, false}
use mathlib.Core.Option.{some}
use mathlib.Core.Logic.{◌≢◌}
use mathlib.Core.List.{List, [], ◌∷◌}
use native.Mathlib.Omega.{arith}
use akuapkg.Common.Tests.{if◌then◌else◌}
use akuapkg.Common.Lists.{All, find, Pairwise}

module _ {ℓ} {A : Type ℓ} (cmp : A → A → Ordering) where
  -- `x` stood left of the list, so it stays before what it ties with
  unfoldable pub insert : A → List A → List A
  insert x [] = x ∷ []
  insert x (y ∷ ys) = elim (cmp x y) [ Ordering.gt ↦ y ∷ insert x ys | _ ↦ x ∷ y ∷ ys ]

  unfoldable pub to_sorted : List A → List A
  unfolding insert
  to_sorted [] = []
  to_sorted (x ∷ xs) = insert x (to_sorted xs)

  -- no element is greater than the next one
  abbrev pub IsSorted : List A → Type 0
  IsSorted [] = Unit
  IsSorted (x ∷ []) = Unit
  IsSorted (x ∷ y ∷ ys) = (cmp x y ≢ Ordering.gt) × IsSorted (y ∷ ys)

module _ {ℓ} {A : Type ℓ} (cmp : A → A → Ordering)
    (total : (a b : A) → cmp a b ≡ Ordering.gt → cmp b a ≢ Ordering.gt) where
  insert-IsSorted : (x : A) (xs : List A) → IsSorted cmp xs → IsSorted cmp (insert cmp x xs)
  unfolding insert
  insert-IsSorted x [] h = tt
  insert-IsSorted x (y ∷ []) h = ground (arith, total x y)
  insert-IsSorted x (y ∷ z ∷ zs) h =
      ground (arith, total x y, total x z, insert-IsSorted x (z ∷ zs) h.1)

  pub to_sorted-IsSorted : (xs : List A) → IsSorted cmp (to_sorted cmp xs)
  unfolding to_sorted
  to_sorted-IsSorted [] = tt
  to_sorted-IsSorted (x ∷ xs) = insert-IsSorted x (to_sorted cmp xs) (to_sorted-IsSorted xs)

module _ {ℓ κ} {A : Type ℓ} (cmp : A → A → Ordering) (P : A → Type κ) where
  insert-All : (x : A) (xs : List A) → P x → All P xs → All P (insert cmp x xs)
  unfolding insert
  insert-All x [] p h = (p, tt)
  insert-All x (y ∷ ys) p h =
      ((elim (cmp x y)
        as (λ o. All P (elim o [ Ordering.gt ↦ y ∷ insert cmp x ys | _ ↦ x ∷ y ∷ ys ])) [
          | Ordering.gt ↦ (h.0, insert-All x ys p h.1)
          | Ordering.lt ↦ (p, h)
          | Ordering.eq ↦ (p, h)
        ]))

  pub to_sorted-All : (xs : List A) → All P xs → All P (to_sorted cmp xs)
  unfolding to_sorted
  to_sorted-All [] h = tt
  to_sorted-All (x ∷ xs) h = insert-All x (to_sorted cmp xs) h.0 (to_sorted-All xs h.1)

-- A search meets the same element in the sorted list, if the order separates what the search
-- accepts from what it does not.
module _ {ℓ} {A : Type ℓ} (cmp : A → A → Ordering) (p : A → Bool)
    (apart : (x y : A) → cmp x y ≡ Ordering.gt → p x ≡ true → p y ≡ false) where
  find-insert :
      (x : A) (ys : List A) → find p (insert cmp x ys) ≡ (if p x then some x else find p ys)
  unfolding insert
  find-insert x [] = refl
  find-insert x (y ∷ ys) = ground (arith, find-insert x ys, apart x y)

  pub find-to_sorted : (xs : List A) → find p (to_sorted cmp xs) ≡ find p xs
  unfolding to_sorted
  find-to_sorted [] = refl
  find-to_sorted (x ∷ xs) =
      find-insert x (to_sorted cmp xs) ∙ ap (λ o. if p x then some x else o) (find-to_sorted xs)

-- a symmetric relation between all elements
module _ {ℓ κ} {A : Type ℓ} (cmp : A → A → Ordering) (R : A → A → Type κ)
    (symmetric : (a b : A) → R a b → R b a) where
  insert-Pairwise :
      (x : A) (ys : List A) → All (R x) ys → Pairwise R ys → Pairwise R (insert cmp x ys)
  unfolding insert
  insert-Pairwise x [] h k = (tt, tt)
  insert-Pairwise x (y ∷ ys) h k =
      elim (cmp x y)
        as (λ o. Pairwise R (elim o [ Ordering.gt ↦ y ∷ insert cmp x ys | _ ↦ x ∷ y ∷ ys ])) [
          | Ordering.gt ↦
              (insert-All cmp (R y) x ys (symmetric x y h.0) k.0, insert-Pairwise x ys h.1 k.1)
          | Ordering.lt ↦ (h, k)
          | Ordering.eq ↦ (h, k)
        ]

  pub to_sorted-Pairwise : (xs : List A) → Pairwise R xs → Pairwise R (to_sorted cmp xs)
  unfolding to_sorted
  to_sorted-Pairwise [] h = tt
  to_sorted-Pairwise (x ∷ xs) h =
      insert-Pairwise x (to_sorted cmp xs) (to_sorted-All cmp (R x) xs h.0)
        (to_sorted-Pairwise xs h.1)

-- what holds of the sorted list holds of the list
module _ {ℓ κ} {A : Type ℓ} (cmp : A → A → Ordering) (P : A → Type κ) where
  All-insert : (x : A) (ys : List A) → All P (insert cmp x ys) → P x × All P ys
  unfolding insert
  All-insert x [] = λ h. (h.0, tt)
  All-insert x (y ∷ ys) =
      elim (cmp x y)
        as (λ o.
          All P (elim o [ Ordering.gt ↦ y ∷ insert cmp x ys | _ ↦ x ∷ y ∷ ys ])
          → P x × All P (y ∷ ys)) [
            | Ordering.gt ↦ λ h. let (p, rest) = All-insert x ys h.1 in (p, (h.0, rest))
            | Ordering.lt ↦ λ h. h
            | Ordering.eq ↦ λ h. h
          ]

  pub All-to_sorted : (xs : List A) → All P (to_sorted cmp xs) → All P xs
  unfolding to_sorted
  All-to_sorted [] h = tt
  All-to_sorted (x ∷ xs) h =
      let (p, rest) = All-insert x (to_sorted cmp xs) h in (p, All-to_sorted xs rest)
