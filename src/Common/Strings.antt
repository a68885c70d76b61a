-- ===== src/Common/Strings.antt =====
-- JavaScript strings as lists of UTF-16 code units, with the methods that the source calls.
use Prim.Native.Nat.{ℕ, compare, Ordering}
use Prim.Native.Char.{code}
use Prim.Native.String.{String}
use mathlib.Core.Path.{◌≡◌, refl}
use mathlib.Core.Logic.{◌↔◌}
use mathlib.Core.Bool.{Bool, true, false, ◌&&◌, ◌||◌}
use mathlib.Core.List.{List, [], ◌∷◌, ◌++◌}
use native.Mathlib.Omega.{arith}
use akuapkg.Common.Tests.{if◌then◌else◌, ◌==◌, leb, is_some}
use mathlib.Core.Option.{Option, none, some}
use akuapkg.Common.Lists.{length, drop}

abbrev pub Text : Type 0
Text = List ℕ

-- an ASCII literal of the source
abbrev pub text : String → Text
text String.[] = []
text (String.◌∷◌ c s) = code c ∷ text s

-- `a === b`
unfoldable pub text_eq : Text → Text → Bool
text_eq [] [] = true
text_eq (a ∷ s) (b ∷ t) = a == b && text_eq s t
text_eq _ _ = false

pub text_eq_sound : (s t : Text) → text_eq s t ≡ true → s ≡ t
unfolding text_eq
text_eq_sound [] [] h = refl
text_eq_sound (a ∷ s) (b ∷ t) h = ground (arith, text_eq_sound s t)
text_eq_sound [] (b ∷ t) h = cc
text_eq_sound (a ∷ s) [] h = cc

pub text_eq_refl : (s : Text) → text_eq s s ≡ true
unfolding text_eq
text_eq_refl [] = refl
text_eq_refl (a ∷ s) = ground (arith, text_eq_refl s)

pub text_eq_iff : (s t : Text) → (text_eq s t ≡ true) ↔ (s ≡ t)
text_eq_iff s t = (text_eq_sound s t, λ e. rw e (text_eq_refl t))

-- the order of `<` on strings: by code unit, a proper prefix first
unfoldable pub compare_text : Text → Text → Ordering
compare_text [] [] = Ordering.eq
compare_text [] (b ∷ t) = Ordering.lt
compare_text (a ∷ s) [] = Ordering.gt
compare_text (a ∷ s) (b ∷ t) =
    let rest = compare_text s t in
    elim (compare a b) [
      | Ordering.lt ↦ Ordering.lt
      | Ordering.gt ↦ Ordering.gt
      | Ordering.eq ↦ rest
    ]

pub compare_text_eq : (s t : Text) → compare_text s t ≡ Ordering.eq → s ≡ t
unfolding compare_text
compare_text_eq [] [] h = refl
compare_text_eq (a ∷ s) (b ∷ t) h = ground (arith, compare_text_eq s t)
compare_text_eq [] (b ∷ t) h = cc
compare_text_eq (a ∷ s) [] h = cc

pub compare_text_refl : (s : Text) → compare_text s s ≡ Ordering.eq
unfolding compare_text
compare_text_refl [] = refl
compare_text_refl (a ∷ s) = ground (arith, compare_text_refl s)

abbrev pub flip : Ordering → Ordering
flip Ordering.lt = Ordering.gt
flip Ordering.eq = Ordering.eq
flip Ordering.gt = Ordering.lt

pub compare_text-flip : (s t : Text) → compare_text t s ≡ flip (compare_text s t)
unfolding compare_text
compare_text-flip [] [] = refl
compare_text-flip (a ∷ s) (b ∷ t) = ground (arith, compare_text-flip s t)
compare_text-flip [] (b ∷ t) = refl
compare_text-flip (a ∷ s) [] = refl

pub compare_text_trans :
    (s t u : Text)
    → compare_text s t ≡ Ordering.lt
    → compare_text t u ≡ Ordering.lt
    → compare_text s u ≡ Ordering.lt
unfolding compare_text
compare_text_trans [] t [] h k = ground (arith, compare_text-flip t [])
compare_text_trans [] t (c ∷ u) h k = refl
compare_text_trans (a ∷ s) [] u h k = cc
compare_text_trans (a ∷ s) (b ∷ t) [] h k = cc
compare_text_trans (a ∷ s) (b ∷ t) (c ∷ u) h k = ground (arith, compare_text_trans s t u)

-- `s.startsWith(prefix)`
unfoldable pub starts_with : Text → Text → Bool
starts_with s [] = true
starts_with [] (c ∷ p) = false
starts_with (a ∷ s) (c ∷ p) = a == c && starts_with s p

-- `s.includes(c)` for a string of one code unit
unfoldable pub includes : Text → ℕ → Bool
includes [] c = false
includes (a ∷ s) c = a == c || includes s c

-- `s.split(c)` for a separator that `sep` recognises; never empty
unfoldable pub split_by : (ℕ → Bool) → Text → Text × List Text
split_by sep [] = ([], [])
split_by sep (a ∷ s) =
    let (cur, more) = split_by sep s in if sep a then ([], cur ∷ more) else (a ∷ cur, more)

abbrev pub split : ℕ → Text → List Text
split c s = let (first, more) = split_by (λ a. a == c) s in first ∷ more

-- `parts.join(c)`
unfoldable pub join : ℕ → List Text → Text
join c [] = []
join c (p ∷ []) = p
join c (p ∷ q ∷ ps) = p ++ c ∷ join c (q ∷ ps)

-- what follows the first occurrence of `pattern`: none if `s.indexOf(pattern)` is -1, else
-- `s.slice(s.indexOf(pattern) + pattern.length)`
unfoldable pub after : Text → Text → Option Text
after pattern [] = if text_eq pattern [] then some [] else none
after pattern (a ∷ s) =
    if starts_with (a ∷ s) pattern then some (drop (length pattern) (a ∷ s)) else after pattern s

-- `s.includes(pattern)`
abbrev pub contains : Text → Text → Bool
contains s pattern = is_some (after pattern s)

abbrev pub is_upper : ℕ → Bool
is_upper c = leb b'A' c && leb c b'Z'

abbrev pub is_lower : ℕ → Bool
is_lower c = leb b'a' c && leb c b'z'

abbrev pub is_digit : ℕ → Bool
is_digit c = leb b'0' c && leb c b'9'

-- `[A-Za-z0-9]`
abbrev pub is_alnum : ℕ → Bool
is_alnum c = is_upper c || is_lower c || is_digit c

-- what stands before and after the first `c`: none if `s.indexOf(c)` is -1
unfoldable pub cut : ℕ → Text → Option (Text × Text)
cut c [] = none
cut c (a ∷ s) =
    let rest = cut c s in
    if a == c
    then some ([], s)
    else elim rest [ none ↦ none | some (before, behind) ↦ some (a ∷ before, behind) ]

pub cut-append : (c : ℕ) (s t : Text) → includes s c ≡ false → cut c (s ++ c ∷ t) ≡ some (s, t)
unfolding cut includes
cut-append c [] t h = ground arith
cut-append c (a ∷ s) t h = ground (arith, cut-append c s t)

pub cut_sound :
    (c : ℕ) (s before behind : Text)
    → cut c s ≡ some (before, behind)
    → (s ≡ before ++ c ∷ behind) × (includes before c ≡ false)
unfolding cut includes
cut_sound c [] before behind h = cc
cut_sound c (a ∷ s) [] behind h = ground arith
cut_sound c (a ∷ s) (b ∷ before) behind h = ground (arith, cut_sound c s before behind)
