-- ===== src/Toml/Tests.antt =====
-- Runs of the TOML writer, and its theorems at concrete inputs.
use akuapkg.Common.{◌≡◌, refl, Text, text, text_eq, join, some, [], ◌∷◌, ◌++◌}
use akuapkg.Toml.{measure, escape_from, escape_unit, toml_string, toml_key}
use akuapkg.Toml.Document.{
  TomlEntries, undefined, string, number, table, tables, end, entry, last, element, digits_from,
  body_line, body_of, any_child, below, emit, to_toml,
}
use akuapkg.Toml.Reader.{read_string}
use akuapkg.Toml.Strings.{read_string-toml_string}

styles_run :
    (toml_string (text "plain") ≡ text "\"plain\"")
    × (toml_string (text "a\"b") ≡ text "'a\"b'")
    × (toml_string (text "it's \"so\"") ≡ text "\"\"\"it's \"so\"\"\"\"")
    × (toml_string (text "a\\'") ≡ text "'''a\\''''")
    × (toml_key (text "a b") ≡ text "\"a b\"")
unfolding toml_string toml_key measure escape_from escape_unit text_eq
styles_run = (refl, refl, refl, refl, refl)

read_string-toml_string_example : read_string (toml_string (text "a\\'\"")) ≡ some (text "a\\'\"")
read_string-toml_string_example = read_string-toml_string (text "a\\'\"")

abbrev document : TomlEntries
document = entry (text "version") (number 10) (
    entry (text "package")
      (tables (
        element
          (entry (text "name") (string (text "a")) (
            entry (text "yanked") undefined (
              entry (text "replaced") (table (entry (text "path") (string (text "../a")) end))
                end)))
          last))
      (entry (text "signing") (table end) end))

abbrev printed_document : Text
printed_document =
    text "version = 10"
    ++ (10 ∷ 10 ∷ text "[[package]]")
    ++ (10 ∷ text "name = \"a\"")
    ++ (10 ∷ 10 ∷ text "[package.replaced]")
    ++ (10 ∷ text "path = \"../a\"")
    ++ (10 ∷ 10 ∷ text "[signing]")
    ++ (10 ∷ [])

document_run : to_toml document ≡ printed_document
unfolding to_toml emit below body_of body_line any_child toml_string toml_key measure escape_from
    escape_unit text_eq digits_from join
document_run = refl
