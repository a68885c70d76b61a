-- ===== src/Toml/Strings.antt =====
-- Every printed string and key is read back as the text that it stands for.
use akuapkg.Common.{
  ℕ, ◌+◌, ◌≤◌, ◌≡◌, refl, Text, text, starts_with, Bool, true, false, some, [], ◌∷◌, ◌++◌, ◌==◌,
  ==_iff, if◌then◌else◌, arith, Bool-cases, inl, inr,
}
use mathlib.Core.List.{append_assoc}
use akuapkg.Toml.{
  Metrics, metrics, measure, no_metrics, escape_unit, escape_from, basic, multiline_basic, literal,
  multiline_literal, newline_if, toml_string, fits_basic, fits_literal, fits_multiline_basic,
  fits_multiline_literal,
}
use akuapkg.Toml.Reader.{trim_first, read_string}
use akuapkg.Toml.Escapes.{read-escape_line, read-escape_lines}
use akuapkg.Toml.Literals.{measure_mono, read-literal, seen}

-- no printed unit of a one-line string begins with a bare quote
escape_unit_head :
    (quotes c : ℕ) (rest p : Text)
    → (let run = if c == 0x22 then quotes + 1 else 0 in
        starts_with (escape_unit false run c ++ rest) (0x22 ∷ p))
      ≡ false
unfolding escape_unit starts_with
escape_unit_head quotes c rest p = ground arith

basic_is_line : (v : Text) → starts_with (basic v) (text "\"\"\"") ≡ false
unfolding starts_with escape_from
basic_is_line [] = refl
basic_is_line (c ∷ v) =
    rw (append_assoc (escape_unit false (if c == 0x22 then 0 + 1 else 0) c))
      (escape_unit_head 0 c _ (0x22 ∷ []))

read-basic : (v : Text) → read_string (basic v) ≡ some v
unfolding read_string
read-basic v = rw (basic_is_line v) (unfold starts_with in read-escape_line 0 0 v)

-- a text that begins with a line end or a single quote is measured so
newline_head : (v : Text) → (metrics (0x0a ∷ v)).newline ≡ true
newline_head v = (unfold measure in (measure_mono v 0 0 (seen 0x0a 0 0 no_metrics)).1 refl)

quote_head : (v : Text) → 1 ≤ (metrics (0x27 ∷ v)).max_single_quotes
quote_head v = (unfold measure in (measure_mono v 1 0 (seen 0x27 1 0 no_metrics)).2)

not_newline : (c : ℕ) (v : Text) → (metrics (c ∷ v)).newline ≡ false → (c == 0x0a) ≡ false
not_newline c v h = elim (Bool-cases (c == 0x0a)) [
  | inl same ↦
      absurd (let e : c ≡ 0x0a = (==_iff c 0x0a).0 same in ground (arith, newline_head v, h, e))
  | inr other ↦ other
]

trim-escape_unit :
    (c : ℕ) (rest : Text)
    → (c == 0x0a) ≡ false
    → (let run = if c == 0x22 then 0 + 1 else 0 in
        trim_first (escape_unit true run c ++ rest) ≡ escape_unit true run c ++ rest)
unfolding trim_first escape_unit
trim-escape_unit c rest h = ground arith

trim-escape :
    (v rest : Text)
    → (metrics v).newline ≡ false
    → trim_first (escape_from true 0 v ++ 0x22 ∷ rest) ≡ escape_from true 0 v ++ 0x22 ∷ rest
unfolding trim_first escape_from
trim-escape [] rest h = refl
trim-escape (c ∷ v) rest h =
    rw (append_assoc (escape_unit true (if c == 0x22 then 0 + 1 else 0) c))
      (trim-escape_unit c _ (not_newline c v h))

trim-literal :
    (v rest : Text) → (metrics v).newline ≡ false → trim_first (v ++ 0x27 ∷ rest) ≡ v ++ 0x27 ∷ rest
unfolding trim_first
trim-literal [] rest h = refl
trim-literal (c ∷ v) rest h = rw (not_newline c v h) refl

-- the line end behind the opening delimiter is trimmed, or there is none to trim
trim-newline_if :
    (newline : Bool) (body : Text)
    → (newline ≡ false → trim_first body ≡ body)
    → trim_first (newline_if newline ++ body) ≡ body
unfolding trim_first
trim-newline_if true body h = refl
trim-newline_if false body h = h refl

read-multiline_basic :
    (v : Text) (newline : Bool)
    → (newline ≡ false → (metrics v).newline ≡ false)
    → read_string (multiline_basic v newline) ≡ some v
unfolding read_string starts_with
read-multiline_basic v newline h =
    rw (trim-newline_if newline _ (λ e. trim-escape v (0x22 ∷ 0x22 ∷ []) (h e)))
      (read-escape_lines 0 v)

read-multiline_literal :
    (v : Text)
    → (metrics v).escape_codes ≡ false
    → (metrics v).max_single_quotes ≤ 2
    → read_string (multiline_literal v (metrics v).newline) ≡ some v
unfolding read_string starts_with
read-multiline_literal v codes quotes =
    rw (trim-newline_if (metrics v).newline _ (λ e. trim-literal v (0x27 ∷ 0x27 ∷ []) e))
      (read-literal true v 0 0 no_metrics quotes codes (λ e. cc))

literal_is_line :
    (v : Text) → (metrics v).max_single_quotes ≡ 0 → starts_with (literal v) (text "'''") ≡ false
unfolding starts_with
literal_is_line [] h = refl
literal_is_line (c ∷ v) h = elim (Bool-cases (c == 0x27)) [
  | inl same ↦
      absurd (let e : c ≡ 0x27 = (==_iff c 0x27).0 same in omega (arith, quote_head v, rw e at h))
  | inr other ↦ rw other refl
]

read-literal_line :
    (v : Text)
    → (metrics v).escape_codes ≡ false
    → (metrics v).max_single_quotes ≡ 0
    → (metrics v).newline ≡ false
    → read_string (literal v) ≡ some v
unfolding read_string
read-literal_line v codes quotes newline =
    rw (literal_is_line v quotes)
      (unfold starts_with in read-literal false v 0 0 no_metrics (omega arith) codes (λ _. newline))

read-escaped :
    (v : Text)
    → read_string (if (metrics v).newline then multiline_basic v true else basic v) ≡ some v
read-escaped v = elim (Bool-cases (metrics v).newline) [
  | inl e ↦ rw e (read-multiline_basic v true (λ h. cc))
  | inr e ↦ rw e (read-basic v)
]

-- Whatever the text, TOML reads the printed string as that text: no style that the writer chooses
-- loses, adds or changes a character.
pub read_string-toml_string : (v : Text) → read_string (toml_string v) ≡ some v
unfolding toml_string
read_string-toml_string v =
    let m : Metrics = metrics v in
    elim (Bool-cases (fits_basic m)) [
      | inl e ↦ rw e (read-basic v)
      | inr a ↦ rw a (elim (Bool-cases (fits_literal m)) [
        | inl e ↦ rw e (read-literal_line v (ground arith) (ground arith) (ground arith))
        | inr b ↦ rw b (elim (Bool-cases (fits_multiline_basic m)) [
          | inl e ↦ rw e (read-multiline_basic v m.newline (λ h. h))
          | inr c ↦ rw c (elim (Bool-cases (fits_multiline_literal m)) [
            | inl e ↦ rw e (read-multiline_literal v (ground arith) (ground arith))
            | inr d ↦ rw d (read-escaped v)
          ])
        ])
      ])
    ]
