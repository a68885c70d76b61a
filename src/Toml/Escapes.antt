-- ===== src/Toml/Escapes.antt =====
-- The bodies of basic strings, as `escapeBasic` writes them, are read back.
use mathlib.Core.List.{append_assoc}
use akuapkg.Common.{
  ℕ, ◌+◌, ◌<◌, ◌≡◌, refl, ap, ◌∙◌, Text, text, text_eq, Bool, true, false, some, [], ◌∷◌, ◌++◌,
  ◌==◌, ==_iff, ltb, if◌then◌else◌, arith, Bool-cases, inl, inr,
}
use akuapkg.Toml.{escape_unit, escape_from}
use akuapkg.Toml.Reader.{plain, advance, read_units, closing, prepend}
use akuapkg.Toml.Units.{not_close, read_step, read_pair, read_unit}

escape_quote :
    (multiline : Bool) (run : ℕ)
    → escape_unit multiline run 0x22
      ≡ (if ltb (if multiline then 2 else 0) run then text "\\\"" else text "\"")
unfolding escape_unit
escape_quote multiline run = refl

escape_quote_line : (quotes : ℕ) → escape_unit false (quotes + 1) 0x22 ≡ text "\\\""
unfolding escape_unit
escape_quote_line quotes = ground arith

-- the body of a one-line basic string
pub read-escape_line :
    (run quotes : ℕ) (value : Text)
    → read_units 0x22 false (plain run) (escape_from false quotes value ++ closing 0x22 false)
      ≡ some value
unfolding escape_from
read-escape_line run quotes [] = unfold read_units text_eq in refl
read-escape_line run quotes (c ∷ value) =
    rw (append_assoc (escape_unit false (if c == 0x22 then quotes + 1 else 0) c))
      (elim (Bool-cases (c == 0x22)) [
        | inl same ↦ rw ((==_iff c 0x22).0 same) (
            rw (escape_quote_line quotes) (
              read_pair false run 0x22 0x22 _ (unfold advance in refl)
              ∙ ap (prepend (0x22 ∷ [])) (read-escape_line 0 (quotes + 1) value)))
        | inr other ↦
            rw other
              (read_unit false run c _ other ∙ ap (prepend (c ∷ [])) (read-escape_line 0 0 value))
      ])

-- the reader's run of bare quotes, behind a run of the writer's
abbrev bare_run : ℕ → ℕ
bare_run quotes = if ltb 2 quotes then 0 else quotes

read_quotes :
    (quotes : ℕ) (rest : Text)
    → read_units 0x22 true
        (plain (bare_run quotes))
        (escape_unit true (quotes + 1) 0x22 ++ (rest ++ closing 0x22 true))
      ≡ prepend
          (0x22 ∷ [])
          (read_units 0x22 true (plain (bare_run (quotes + 1))) (rest ++ closing 0x22 true))
read_quotes quotes rest =
    rw (escape_quote true (quotes + 1)) (elim (Bool-cases (ltb 2 (quotes + 1))) [
      | inl escaped_too ↦
          rw escaped_too (read_pair true (bare_run quotes) 0x22 0x22 _ (unfold advance in refl))
      | inr bare ↦
          let short : quotes < 2 = ground arith in
          let same : bare_run quotes ≡ quotes = ground arith in
          rw (bare, same)
            (read_step 0x22 true (plain quotes) (plain (quotes + 1)) 0x22 (0x22 ∷ [])
              (rest ++ closing 0x22 true) (unfold text_eq in not_close 0x22 rest)
              (unfold advance in ground arith))
    ])

-- the body of a multi-line basic string
pub read-escape_lines :
    (quotes : ℕ) (value : Text)
    → read_units 0x22 true
        (plain (bare_run quotes))
        (escape_from true quotes value ++ closing 0x22 true)
      ≡ some value
unfolding escape_from
read-escape_lines quotes [] = unfold read_units text_eq in refl
read-escape_lines quotes (c ∷ value) =
    rw (append_assoc (escape_unit true (if c == 0x22 then quotes + 1 else 0) c))
      (elim (Bool-cases (c == 0x22)) [
        | inl same ↦ rw ((==_iff c 0x22).0 same) (
            read_quotes quotes (escape_from true (quotes + 1) value)
            ∙ ap (prepend (0x22 ∷ [])) (read-escape_lines (quotes + 1) value))
        | inr other ↦ rw other (
            read_unit true (bare_run quotes) c _ other
            ∙ ap (prepend (c ∷ [])) (read-escape_lines 0 value))
      ])
