-- ===== src/Toml.antt =====
-- host/src/toml-write.ts: strings, keys, values and documents as the TOML writer prints them. The
-- loops over characters run over code units here: both halves of a surrogate pair are printed as
-- they are, in order, as the character is.
pub mod Reader
pub mod Units
pub mod Escapes
pub mod Literals
pub mod Strings
pub mod Document
pub mod Decimals
mod Tests
use akuapkg.Common.{
  ℕ, zero, suc, ◌+◌, ◌-◌, ◌/◌, ◌%◌, ◌≤◌, Text, text, text_eq, join, is_alnum, Bool, true, false,
  not, ◌&&◌, ◌||◌, Option, none, some, List, [], ◌∷◌, ◌++◌, map, all, filter, length, ◌==◌, ltb,
  leb, if◌then◌else◌,
}
use Prim.Native.Nat.{max}

unfoldable pub is_control : ℕ → Bool
is_control code = (leb code 0x1f && not (code == 0x09)) || code == 0x7f

pub record Metrics : Type 0 where
  pub max_single_quotes : ℕ
  pub max_double_quotes : ℕ
  pub escape_codes : Bool
  pub escape : Bool
  pub newline : Bool

-- the loop of `metrics`, with the runs of quotes so far
unfoldable pub measure : Text → ℕ → ℕ → Metrics → Metrics
unfolding is_control
measure [] singles doubles m = m
measure (code ∷ rest) singles doubles m =
    let s = if code == 0x27 then singles + 1 else 0 in
    let d = if code == 0x22 then doubles + 1 else 0 in
    measure rest s d (record {
      max_single_quotes = max m.max_single_quotes s;
      max_double_quotes = max m.max_double_quotes d;
      escape_codes =
          m.escape_codes || (not (code == 0x5c) && not (code == 0x0a) && is_control code);
      escape = m.escape || code == 0x5c;
      newline = m.newline || (not (code == 0x5c) && code == 0x0a);
    })

abbrev pub no_metrics : Metrics
no_metrics = record {
  max_single_quotes = 0;
  max_double_quotes = 0;
  escape_codes = false;
  escape = false;
  newline = false;
}

abbrev pub metrics : Text → Metrics
metrics value = measure value 0 0 no_metrics

-- one hexadecimal digit, in upper case
abbrev pub hex_digit : ℕ → ℕ
hex_digit d = if ltb d 10 then 48 + d else 55 + d

-- `code.toString(16).toUpperCase().padStart(4, "0")`, below 65536
abbrev pub hex4 : ℕ → Text
hex4 code =
    hex_digit (code / 4096 % 16)
    ∷ hex_digit (code / 256 % 16)
    ∷ hex_digit (code / 16 % 16)
    ∷ hex_digit (code % 16)
    ∷ []

-- what `escapeBasic` writes for one code unit that ends a run of `quotes` quotes
unfoldable pub escape_unit : Bool → ℕ → ℕ → Text
escape_unit multiline quotes code =
    if code == 0x22
    then (if ltb (if multiline then 2 else 0) quotes then text "\\\"" else text "\"")
    else if code == 0x0a
    then (if multiline then 0x0a ∷ [] else text "\\n")
    else if code == 0x08
    then text "\\b"
    else if code == 0x09
    then text "\\t"
    else if code == 0x0c
    then text "\\f"
    else if code == 0x0d
    then text "\\r"
    else if code == 0x5c
    then text "\\\\"
    else if leb code 0x1f || code == 0x7f
    then 0x5c ∷ b'u' ∷ hex4 code
    else code ∷ []

-- the loop of `escapeBasic`, with the run of quotes so far
unfoldable pub escape_from : Bool → ℕ → Text → Text
escape_from multiline quotes [] = []
escape_from multiline quotes (code ∷ rest) =
    let run = if code == 0x22 then quotes + 1 else 0 in
    escape_unit multiline run code ++ escape_from multiline run rest

abbrev pub escape_basic : Text → Bool → Text
escape_basic value multiline = escape_from multiline 0 value

abbrev pub newline_if : Bool → Text
newline_if newline = if newline then 0x0a ∷ [] else []

abbrev pub basic : Text → Text
basic value = 0x22 ∷ escape_basic value false ++ 0x22 ∷ []

abbrev pub multiline_basic : Text → Bool → Text
multiline_basic value newline =
    text "\"\"\"" ++ (newline_if newline ++ (escape_basic value true ++ text "\"\"\""))

abbrev pub literal : Text → Text
literal value = 0x27 ∷ value ++ 0x27 ∷ []

abbrev pub multiline_literal : Text → Bool → Text
multiline_literal value newline = text "'''" ++ (newline_if newline ++ (value ++ text "'''"))

-- the tests of `tomlString`, in its order
abbrev pub fits_basic : Metrics → Bool
fits_basic m = not m.escape_codes && not m.escape && m.max_double_quotes == 0 && not m.newline

abbrev pub fits_literal : Metrics → Bool
fits_literal m = not m.escape_codes && m.max_single_quotes == 0 && not m.newline

abbrev pub fits_multiline_basic : Metrics → Bool
fits_multiline_basic m = not m.escape_codes && not m.escape && leb m.max_double_quotes 2

abbrev pub fits_multiline_literal : Metrics → Bool
fits_multiline_literal m = not m.escape_codes && leb m.max_single_quotes 2

unfoldable pub toml_string : Text → Text
toml_string value =
    let m = metrics value in
    if fits_basic m
    then basic value
    else if fits_literal m
    then literal value
    else if fits_multiline_basic m
    then multiline_basic value m.newline
    else if fits_multiline_literal m
    then multiline_literal value m.newline
    else if m.newline
    then multiline_basic value true
    else basic value

-- `[A-Za-z0-9_-]`
abbrev pub is_bare : ℕ → Bool
is_bare c = is_alnum c || c == b'_' || c == b'-'

abbrev pub is_empty : Text → Bool
is_empty s = text_eq s []

-- `/^[A-Za-z0-9_-]+$/`
abbrev pub is_bare_key : Text → Bool
is_bare_key key = not (is_empty key) && all is_bare key

-- a key has no multi-line form: a newline needs an escape
abbrev pub key_metrics : Text → Metrics
key_metrics key = let m = metrics key in record m { escape_codes = m.escape_codes || m.newline }

abbrev pub fits_basic_key : Metrics → Bool
fits_basic_key m = not m.escape_codes && not m.escape && m.max_double_quotes == 0

abbrev pub fits_literal_key : Metrics → Bool
fits_literal_key m = not m.escape_codes && m.max_single_quotes == 0

unfoldable pub toml_key : Text → Text
toml_key key =
    let m = key_metrics key in
    if is_bare_key key
    then key
    else if fits_basic_key m
    then basic key
    else if fits_literal_key m
    then literal key
    else basic key
