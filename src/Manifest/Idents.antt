-- ===== src/Manifest/Idents.antt =====
-- The identifiers that dependency keys import as.
use akuapkg.Common.{
  ◌≡◌, refl, ◌↔◌, Text, includes, is_digit, Bool, true, false, ◌||◌, [], ◌∷◌, map, all, ◌==◌, arith,
  ℕ, ◌⊎◌, ◌≢◌, ◌≤◌, All,
}
use akuapkg.Manifest.{is_word, kcl_ident, underscore, guard_digit, is_valid_package_name}

abbrev pub starts_with_digit : Text → Bool
starts_with_digit [] = false
starts_with_digit (c ∷ s) = is_digit c

-- `[A-Za-z_][A-Za-z0-9_]*`, or nothing
abbrev pub IsIdent : Text → Type 0
IsIdent s = (all is_word s ≡ true) × (starts_with_digit s ≡ false)

all-underscore : (s : Text) → all is_word (map underscore s) ≡ true
all-underscore [] = refl
all-underscore (c ∷ s) = ground (arith, all-underscore s)

-- Every imported name is made of letters, digits and `_`, and does not begin with a digit.
pub kcl_ident-IsIdent : (name : Text) → IsIdent (kcl_ident name)
unfolding kcl_ident
kcl_ident-IsIdent [] = (refl, refl)
kcl_ident-IsIdent (c ∷ s) = ground (arith, all-underscore s)

map-underscore : (s : Text) → all is_word s ≡ true → map underscore s ≡ s
map-underscore [] h = refl
map-underscore (c ∷ s) h = ground (arith, map-underscore s)

guard_digit_lem : (s : Text) → starts_with_digit s ≡ false → guard_digit s ≡ s
guard_digit_lem [] h = refl
guard_digit_lem (c ∷ s) h = rw h

pub kcl_ident_of_IsIdent : (name : Text) → IsIdent name → kcl_ident name ≡ name
unfolding kcl_ident
kcl_ident_of_IsIdent name h = rw (map-underscore name h.0) (guard_digit_lem name h.1)

IsIdent-of_fixed : (name : Text) → kcl_ident name ≡ name → IsIdent name
IsIdent-of_fixed name h = rw h at (kcl_ident-IsIdent name)

-- A key imports under its own name exactly when it is an identifier.
pub kcl_ident-eq-self_iff : (name : Text) → (kcl_ident name ≡ name) ↔ IsIdent name
kcl_ident-eq-self_iff name = (IsIdent-of_fixed name, kcl_ident_of_IsIdent name)

tail_words :
    (s : Text)
    → all (λ a. is_word a || a == b'-') s ≡ true
    → (all is_word s ≡ true) ↔ (includes s b'-' ≡ false)
unfolding includes
tail_words [] h = ground arith
tail_words (c ∷ s) h = ground (arith, tail_words s)

-- an ASCII letter, a digit, `_` or `-`
abbrev pub IsNameUnit : ℕ → Type 0
IsNameUnit c =
    ((65 ≤ c) × (c ≤ 90)) ⊎ ((97 ≤ c) × (c ≤ 122)) ⊎ ((48 ≤ c) × (c ≤ 57)) ⊎ (c ≡ 95) ⊎ (c ≡ 45)

-- one such unit at least, and no `-` in front
abbrev pub IsPackageName : Text → Type 0
IsPackageName [] = ⊥
IsPackageName (c ∷ s) = (c ≢ 45) × IsNameUnit c × All IsNameUnit s

IsNameUnit-iff : (c : ℕ) → ((is_word c || c == b'-') ≡ true) ↔ IsNameUnit c
IsNameUnit-iff c = ground arith

word_iff : (c : ℕ) → (is_word c ≡ true) ↔ ((c ≢ 45) × IsNameUnit c)
word_iff c = ground arith

units_iff : (s : Text) → (all (λ a. is_word a || a == b'-') s ≡ true) ↔ All IsNameUnit s
units_iff [] = (λ h. tt, λ h. refl)
units_iff (c ∷ s) =
    let (forth, back) = units_iff s in
    let (unit, is_unit) = IsNameUnit-iff c in
    (λ h. (unit (ground (arith, h)), forth (ground (arith, h))), λ (h, k). rw (is_unit h) (back k))

IsPackageName-iff : (name : Text) → (is_valid_package_name name ≡ true) ↔ IsPackageName name
unfolding is_valid_package_name
IsPackageName-iff [] = (λ h. cc, λ h. absurd h)
IsPackageName-iff (c ∷ s) =
    let (forth, back) = units_iff s in
    let (word, is_a_word) = word_iff c in
    (
      λ h. let (dash, unit) = word (ground (arith, h)) in (dash, unit, forth (ground (arith, h))),
      λ (dash, unit, rest). rw (is_a_word (dash, unit)) (back rest),
    )

valid-IsIdent_iff :
    (name : Text)
    → is_valid_package_name name ≡ true
    → IsIdent name ↔ ((includes name b'-' ≡ false) × (starts_with_digit name ≡ false))
unfolding is_valid_package_name includes
valid-IsIdent_iff [] h = absurd (ground arith)
valid-IsIdent_iff (c ∷ s) h = ground (arith, tail_words s)

-- The names that are accepted for a package are exactly those of one or more ASCII letters, digits,
-- `_` and `-` that do not begin with `-`; such a name is a KCL identifier exactly when it has no `-`
-- and no leading digit, so the pattern admits names that are none.
pub is_valid_package_name-IsIdent :
    (name : Text)
    → ((is_valid_package_name name ≡ true) ↔ IsPackageName name)
      × (IsPackageName name
          → IsIdent name ↔ ((includes name b'-' ≡ false) × (starts_with_digit name ≡ false)))
is_valid_package_name-IsIdent name =
    (IsPackageName-iff name, λ h. valid-IsIdent_iff name ((IsPackageName-iff name).1 h))
