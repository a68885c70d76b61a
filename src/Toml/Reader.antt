-- ===== src/Toml/Reader.antt =====
-- How TOML 1.0 reads a string: an automaton over the units between the delimiters. Written from the
-- TOML grammar, not from the program. Left out, since no printed string has them: a backslash at
-- the end of a line, CRLF line ends, and `\U` escapes.
use akuapkg.Common.{
  ℕ, ◌+◌, ◌-◌, ◌*◌, Text, text, text_eq, starts_with, drop, Bool, true, false, not, ◌&&◌, ◌||◌,
  Option, none, some, [], ◌∷◌, ◌++◌, all, ◌==◌, ltb, leb, if◌then◌else◌,
}

-- between units, with the run of bare quotes so far; behind a backslash; in the digits of `\u`
pub data Mode : Type 0 where
  plain : ℕ → Mode
  escaped : Mode
  hex : ℕ → ℕ → Mode

unfoldable pub is_raw_control : ℕ → Bool
is_raw_control c = (ltb c 0x20 && not (c == 0x09)) || c == 0x7f

unfoldable pub from_hex : ℕ → Option ℕ
from_hex c =
    if leb 48 c && leb c 57
    then some (c - 48)
    else if leb 65 c && leb c 70
    then some (c - 55)
    else none

-- a unit between the delimiters `quote`: what it stands for, and the mode behind it
abbrev raw_unit : ℕ → Bool → ℕ → ℕ → Option (Mode × Text)
raw_unit quote multiline run c =
    if c == quote
    then (if multiline && ltb run 2 then some (plain (run + 1), c ∷ []) else none)
    else if c == 0x0a
    then (if multiline then some (plain 0, c ∷ []) else none)
    else if is_raw_control c
    then none
    else some (plain 0, c ∷ [])

abbrev escape_unit : ℕ → Option (Mode × Text)
escape_unit c =
    if c == b'b'
    then some (plain 0, 0x08 ∷ [])
    else if c == b't'
    then some (plain 0, 0x09 ∷ [])
    else if c == b'n'
    then some (plain 0, 0x0a ∷ [])
    else if c == b'f'
    then some (plain 0, 0x0c ∷ [])
    else if c == b'r'
    then some (plain 0, 0x0d ∷ [])
    else if c == 0x22
    then some (plain 0, 0x22 ∷ [])
    else if c == 0x5c
    then some (plain 0, 0x5c ∷ [])
    else if c == b'u'
    then some (hex 4 0, [])
    else none

abbrev hex_unit : ℕ → ℕ → Option ℕ → Option (Mode × Text)
hex_unit left value none = none
hex_unit left value (some d) =
    if leb left 1
    then some (plain 0, (value * 16 + d) ∷ [])
    else some (hex (left - 1) (value * 16 + d), [])

-- a basic string knows escapes, a literal string does not
unfoldable pub advance : ℕ → Bool → Mode → ℕ → Option (Mode × Text)
advance quote multiline (plain run) c =
    if c == 0x5c && quote == 0x22 then some (escaped, []) else raw_unit quote multiline run c
advance quote multiline escaped c = escape_unit c
advance quote multiline (hex left value) c = hex_unit left value (from_hex c)

abbrev pub is_between : Mode → Bool
is_between (plain run) = true
is_between _ = false

abbrev pub prepend : Text → Option Text → Option Text
prepend out none = none
prepend out (some more) = some (out ++ more)

abbrev pub closing : ℕ → Bool → Text
closing quote multiline = if multiline then quote ∷ quote ∷ quote ∷ [] else quote ∷ []

-- the units up to the closing delimiter, which ends the text
unfoldable pub read_units : ℕ → Bool → Mode → Text → Option Text
read_units quote multiline mode [] = none
read_units quote multiline mode (c ∷ rest) =
    elim (is_between mode && text_eq (c ∷ rest) (closing quote multiline)) [
      | true ↦ some []
      | false ↦ elim (advance quote multiline mode c) [
        | none ↦ none
        | some (next, out) ↦ prepend out (read_units quote multiline next rest)
      ]
    ]

-- a line end right behind the opening delimiter is not part of a multi-line string
unfoldable pub trim_first : Text → Text
trim_first [] = []
trim_first (c ∷ rest) = if c == 0x0a then rest else c ∷ rest

unfoldable pub read_string : Text → Option Text
read_string s =
    if starts_with s (text "\"\"\"")
    then read_units 0x22 true (plain 0) (trim_first (drop 3 s))
    else if starts_with s (text "\"")
    then read_units 0x22 false (plain 0) (drop 1 s)
    else if starts_with s (text "'''")
    then read_units 0x27 true (plain 0) (trim_first (drop 3 s))
    else if starts_with s (text "'")
    then read_units 0x27 false (plain 0) (drop 1 s)
    else none

-- `unquoted-key` of the grammar is one or more of ALPHA, DIGIT, `-` and `_`
unfoldable pub is_unquoted_unit : ℕ → Bool
is_unquoted_unit c =
    (leb 0x41 c && leb c 0x5a)
    || (leb 0x61 c && leb c 0x7a)
    || (leb 0x30 c && leb c 0x39)
    || c == 0x2d
    || c == 0x5f

-- a key is bare or a one-line string; a dotted key is not one key
unfoldable pub read_key : Text → Option Text
read_key k =
    if not (text_eq k []) && all is_unquoted_unit k
    then some k
    else if starts_with k (text "\"\"\"") || starts_with k (text "'''")
    then none
    else read_string k
