-- ===== src/Common/Split.antt =====
-- `split` and `join` undo each other.
use akuapkg.Common.Tests.{◌==◌, ==_iff, Bool-cases}
use akuapkg.Common.Lists.{All}
use akuapkg.Common.Strings.{Text, includes, split_by, split, join}
use Prim.Native.Nat.{ℕ}
use mathlib.Core.Path.{◌≡◌, refl, sym, ap, ◌∙◌}
use mathlib.Core.Logic.{inl, inr}
use mathlib.Core.Bool.{false}
use mathlib.Core.List.{List, [], ◌∷◌, ◌++◌}
use native.Mathlib.Omega.{arith}

module _ (c : ℕ) where
  abbrev pub Lacks : Text → Type 0
  Lacks s = includes s c ≡ false

  abbrev AllLack : Text × List Text → Type 0
  AllLack r = Lacks r.0 × All Lacks r.1

  split_by-Lacks : (s : Text) → AllLack (split_by (λ a. a == c) s)
  unfolding split_by includes
  split_by-Lacks [] = (refl, tt)
  split_by-Lacks (a ∷ s) =
      let (h, k) = split_by-Lacks s in
      elim (Bool-cases (a == c)) [ inl e ↦ rw e (refl, (h, k)) | inr e ↦ rw e (rw e h, k) ]

  -- no part holds the separator
  pub split-Lacks : (s : Text) → All Lacks (split c s)
  split-Lacks s = let (h, k) = split_by-Lacks s in (h, k)

  pub split-of_Lacks : (s : Text) → Lacks s → split c s ≡ s ∷ []
  unfolding split_by includes
  split-of_Lacks [] h = refl
  split-of_Lacks (a ∷ s) h = ground (arith, split-of_Lacks s)

  pub split-append_sep : (s t : Text) → Lacks s → split c (s ++ c ∷ t) ≡ s ∷ split c t
  unfolding split_by includes
  split-append_sep [] t h = ground arith
  split-append_sep (a ∷ s) t h = ground (arith, split-append_sep s t)

  pub split-join :
      (p : Text) (ps : List Text) → All Lacks (p ∷ ps) → split c (join c (p ∷ ps)) ≡ p ∷ ps
  unfolding join
  split-join p [] h = split-of_Lacks p h.0
  split-join p (q ∷ qs) h =
      rw (split-append_sep p (join c (q ∷ qs)) h.0) (ap (◌∷◌ p) (split-join q qs h.1))

  join-cons : (a : ℕ) (p : Text) (ps : List Text) → join c ((a ∷ p) ∷ ps) ≡ a ∷ join c (p ∷ ps)
  unfolding join
  join-cons a p [] = refl
  join-cons a p (q ∷ qs) = refl

  join-nil_cons : (p : Text) (ps : List Text) → join c ([] ∷ p ∷ ps) ≡ c ∷ join c (p ∷ ps)
  unfolding join
  join-nil_cons p ps = refl

  pub join-split : (s : Text) → join c (split c s) ≡ s
  unfolding split_by
  join-split [] = unfold join in refl
  join-split (a ∷ s) = elim (Bool-cases (a == c)) [
    | inl e ↦ rw e (
        join-nil_cons _ _
        ∙ ap (λ b. b ∷ join c (split c s)) (sym ((==_iff a c).0 e))
        ∙ ap (◌∷◌ a) (join-split s))
    | inr e ↦ rw e (join-cons a _ _ ∙ ap (◌∷◌ a) (join-split s))
  ]
