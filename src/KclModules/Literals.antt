-- ===== src/KclModules/Literals.antt =====
-- A KCL string literal stands for the text it was made of, unless that holds `${`. The reader is
-- written from what KCL reads, not from the program, and is stricter: it takes no raw line end or tab.
use mathlib.Core.List.{append_assoc}
use akuapkg.Common.{
  ℕ, ◌≡◌, refl, ap, ◌∙◌, Text, text, true, false, Option, none, some, [], ◌∷◌, ◌++◌, ◌==◌, ==_iff,
  Bool-cases, inl, inr, if◌then◌else◌, ◌||◌, ◌&&◌, Bool, arith,
}
use akuapkg.KclModules.{replace_all, kcl_escape, kcl_string_literal}

-- the character that a backslash and `e` stand for
unfoldable pub unescape : ℕ → Option ℕ
unescape e =
    if e == b'n'
    then some 0x0a
    else if e == b'r'
    then some 0x0d
    else if e == b't'
    then some 0x09
    else if e == 0x22
    then some 0x22
    else if e == 0x5c
    then some 0x5c
    else none

abbrev pub prepend : ℕ → Option Text → Option Text
prepend c none = none
prepend c (some s) = some (c ∷ s)

abbrev pub prepend_some : Option ℕ → Option Text → Option Text
prepend_some none more = none
prepend_some (some c) more = prepend c more

abbrev is_line_unit : ℕ → Bool
is_line_unit c = c == 0x0a || c == 0x0d || c == 0x09

-- the value of a literal behind its opening quote: the closing quote must be its end, a line end or a
-- tab may stand in it as an escape only, and `${` would begin an interpolation, which is no text
unfoldable pub read_body : Text → Option Text
read_body [] = none
read_body (c ∷ []) = if c == 0x22 then some [] else none
read_body (c ∷ e ∷ rest) = elim (c == 0x22) [
  | true ↦ none
  | false ↦ elim (c == 0x5c) [
    | true ↦ prepend_some (unescape e) (read_body rest)
    | false ↦ elim (is_line_unit c || (c == 0x24 && e == 0x7b)) [
      | true ↦ none
      | false ↦ prepend c (read_body (e ∷ rest))
    ]
  ]
]

unfoldable pub read_literal : Text → Option Text
read_literal [] = none
read_literal (c ∷ rest) = if c == 0x22 then read_body rest else none

escaped_as : ℕ → Text
escaped_as c =
    if c == 0x5c
    then text "\\\\"
    else if c == 0x22
    then text "\\\""
    else if c == 0x0a
    then text "\\n"
    else if c == 0x0d
    then text "\\r"
    else if c == 0x09
    then text "\\t"
    else c ∷ []

-- five replacements, one after the other, are one pass: no replacement finds what another wrote
kcl_escape-cons : (c : ℕ) (s : Text) → kcl_escape (c ∷ s) ≡ escaped_as c ++ kcl_escape s
unfolding kcl_escape replace_all escaped_as
kcl_escape-cons c s = elim (Bool-cases (c == 0x5c)) [
  | inl e ↦ rw ((==_iff c 0x5c).0 e) refl
  | inr a ↦ elim (Bool-cases (c == 0x22)) [
    | inl e ↦ rw ((==_iff c 0x22).0 e) refl
    | inr b ↦ elim (Bool-cases (c == 0x0a)) [
      | inl e ↦ rw ((==_iff c 0x0a).0 e) refl
      | inr d ↦ elim (Bool-cases (c == 0x0d)) [
        | inl e ↦ rw ((==_iff c 0x0d).0 e) refl
        | inr f ↦
            rw (a, b, d, f)
              (elim (Bool-cases (c == 0x09)) [ inl e ↦ rw e refl | inr e ↦ rw e refl ])
      ]
    ]
  ]
]

abbrev pub starts_brace : Text → Bool
starts_brace [] = false
starts_brace (c ∷ s) = c == 0x7b

-- `${` somewhere in the text
unfoldable pub has_interpolation : Text → Bool
has_interpolation [] = false
has_interpolation (c ∷ s) = (c == 0x24 && starts_brace s) || has_interpolation s

-- a unit that is read in front of the rest, unless the two begin an interpolation
abbrev read_on : ℕ → Text → Option Text
read_on c behind = if c == 0x24 && starts_brace behind then none else prepend c (read_body behind)

read-bare :
    (c : ℕ) (rest : Text)
    → (c == 0x5c) ≡ false
    → (c == 0x22) ≡ false
    → is_line_unit c ≡ false
    → read_body (c ∷ (rest ++ 0x22 ∷ [])) ≡ read_on c (rest ++ 0x22 ∷ [])
unfolding read_body
read-bare c [] h k l =
    rw (k, read_body)
      (rw h (rw l (elim (Bool-cases (c == 0x24)) [ inl e ↦ rw e refl | inr e ↦ rw e refl ])))
read-bare c (e ∷ rest) h k l =
    rw (k, read_body)
      (rw h (
        rw l (elim (Bool-cases (c == 0x24 && e == 0x7b)) [
          | inl same ↦ rw same refl
          | inr other ↦ rw other refl
        ])))

read-escaped_as :
    (c : ℕ) (rest : Text)
    → read_body (escaped_as c ++ (rest ++ 0x22 ∷ [])) ≡ read_on c (rest ++ 0x22 ∷ [])
unfolding read_body unescape escaped_as
read-escaped_as c rest = elim (Bool-cases (c == 0x5c)) [
  | inl e ↦ rw ((==_iff c 0x5c).0 e) refl
  | inr a ↦ elim (Bool-cases (c == 0x22)) [
    | inl e ↦ rw ((==_iff c 0x22).0 e) refl
    | inr b ↦ elim (Bool-cases (c == 0x0a)) [
      | inl e ↦ rw ((==_iff c 0x0a).0 e) refl
      | inr d ↦ elim (Bool-cases (c == 0x0d)) [
        | inl e ↦ rw ((==_iff c 0x0d).0 e) refl
        | inr f ↦ elim (Bool-cases (c == 0x09)) [
          | inl e ↦ rw ((==_iff c 0x09).0 e) refl
          | inr g ↦ rw (a, b, d, f, g) (read-bare c rest a b (rw (d, f, g) refl))
        ]
      ]
    ]
  ]
]

-- an escaped text begins with a brace where the text does
starts_brace-escaped_as : (c : ℕ) (s : Text) → starts_brace (escaped_as c ++ s) ≡ (c == 0x7b)
unfolding escaped_as
starts_brace-escaped_as c s = ground arith

starts_brace-kcl_escape :
    (value : Text) → starts_brace (kcl_escape value ++ 0x22 ∷ []) ≡ starts_brace value
starts_brace-kcl_escape [] = (unfold kcl_escape replace_all in refl)
starts_brace-kcl_escape (c ∷ value) =
    ap (λ s. starts_brace (s ++ 0x22 ∷ [])) (kcl_escape-cons c value)
    ∙ ap starts_brace (append_assoc (escaped_as c) (kcl_escape value) (0x22 ∷ []))
    ∙ starts_brace-escaped_as c (kcl_escape value ++ 0x22 ∷ [])

-- the text itself, or nothing if it has an interpolation
abbrev pub text_or_none : Text → Option Text
text_or_none value = if has_interpolation value then none else some value

read_on-text :
    (c : ℕ) (value behind : Text)
    → starts_brace behind ≡ starts_brace value
    → read_body behind ≡ text_or_none value
    → read_on c behind ≡ text_or_none (c ∷ value)
unfolding has_interpolation
read_on-text c value behind h k = rw h (
    rw k (elim (Bool-cases (c == 0x24 && starts_brace value)) [
      | inl e ↦ rw e refl
      | inr e ↦ elim (Bool-cases (has_interpolation value)) [
        | inl m ↦ rw e (rw m refl)
        | inr m ↦ rw e (rw m refl)
      ]
    ]))

read-kcl_escape : (value : Text) → read_body (kcl_escape value ++ 0x22 ∷ []) ≡ text_or_none value
read-kcl_escape [] = (unfold read_body kcl_escape replace_all has_interpolation in refl)
read-kcl_escape (c ∷ value) =
    ap (λ s. read_body (s ++ 0x22 ∷ [])) (kcl_escape-cons c value)
    ∙ ap read_body (append_assoc (escaped_as c) (kcl_escape value) (0x22 ∷ []))
    ∙ read-escaped_as c (kcl_escape value)
    ∙ read_on-text c value (kcl_escape value ++ 0x22 ∷ []) (starts_brace-kcl_escape value)
        (read-kcl_escape value)

-- The literal that a generated module holds for a text is read back as that text, by a reader that
-- takes quotes, backslashes, line ends and tabs as escapes only, if `${` does not stand in the text;
-- where it does, the reader, for which that begins an interpolation, reads no text at all.
pub read_literal-kcl_string_literal :
    (value : Text)
    → read_literal (kcl_string_literal value)
      ≡ (if has_interpolation value then none else some value)
unfolding read_literal kcl_string_literal
read_literal-kcl_string_literal value = read-kcl_escape value
