-- ===== src/Yaml/Tests.antt =====
-- Octal numbers in YAML on concrete texts.
use akuapkg.Common.{
  ◌&&◌, not, true, none, all, All, ◌==◌, leb, arith, Text, text, text_eq, starts_with, [], ◌∷◌,
  ◌++◌, ◌≡◌, refl, ℕ,
}
use akuapkg.Toml.Document.{decimal, digits_from}
use akuapkg.Archive.{is_space, trim_start}
use akuapkg.Yaml.{
  split_lines, without_ending, indent_of, value_start, octal_run, octal_value, rewritten,
  written_line, written_lines, normalize_legacy_octal,
}
use akuapkg.Yaml.Octal.{IsInLine, IsKeyUnit, IsOctalDigit, place_value, written_line-octal}

-- stands for the printing of large numbers, which these runs do not reach
abbrev no_large : ℕ → Text
no_large n = []

normalize_run :
    normalize_legacy_octal no_large
      (text "mode: 0755 # rw\nname: \"a: 01\"\nrun: |\n  x: 0755\nlow: -010\n")
    ≡ text "mode: 493 # rw\nname: \"a: 01\"\nrun: |\n  x: 0755\nlow: -8\n"
unfolding normalize_legacy_octal split_lines without_ending indent_of value_start octal_run
    octal_value rewritten written_line written_lines text_eq starts_with digits_from is_space
    trim_start
normalize_run = refl

IsKeyUnit-test :
    (s : Text)
    → all (λ c. not (c == 10) && not (c == 13) && not (c == 34) && not (c == 39) && not (c == 58)) s
      ≡ true
    → All IsKeyUnit s
IsKeyUnit-test [] h = tt
IsKeyUnit-test (c ∷ s) h = (ground (arith, h), IsKeyUnit-test s (ground (arith, h)))

IsOctalDigit-test : (s : Text) → all (λ c. leb 48 c && leb c 55) s ≡ true → All IsOctalDigit s
IsOctalDigit-test [] h = tt
IsOctalDigit-test (c ∷ s) h = (ground (arith, h), IsOctalDigit-test s (ground (arith, h)))

IsInLine-test : (s : Text) → all (λ c. not (c == 10) && not (c == 13)) s ≡ true → All IsInLine s
IsInLine-test [] h = tt
IsInLine-test (c ∷ s) h = (ground (arith, h), IsInLine-test s (ground (arith, h)))

written_line-octal_example : written_line no_large none (text "  mode: 0755 # rw\n") ≡ (
  (text "  mode" ++ text ": ")
      ++ ((decimal (place_value (text "755")) ++ text " # rw") ++ text "\n"),
  none,
)
written_line-octal_example =
    written_line-octal no_large (text "  mode") 55 (text "55") (text " # rw")
      (IsKeyUnit-test (text "  mode") refl) (IsOctalDigit-test (text "755") refl) refl
      (IsInLine-test (text " # rw") refl) (unfold place_value in omega arith)
