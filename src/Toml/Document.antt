-- ===== src/Toml/Document.antt =====
-- host/src/toml-write.ts: values, tables and documents, as `toToml` emits their sections and joins
-- those it keeps.
use akuapkg.Common.{
  ℕ, zero, suc, ◌+◌, ◌/◌, ◌%◌, Text, text, join, Bool, true, false, not, ◌||◌, Option, none, some,
  List, [], ◌∷◌, ◌++◌, map, filter, ltb, if◌then◌else◌,
}
use akuapkg.Toml.{toml_string, toml_key, is_empty}

-- a table's entries and an array's tables are lists in one block with the values
mutual
  pub data TomlValue : Type 0 where
    undefined : TomlValue
    string : Text → TomlValue
    number : ℕ → TomlValue
    boolean : Bool → TomlValue
    array : List Text → TomlValue
    table : TomlEntries → TomlValue
    tables : TomlTables → TomlValue

  pub data TomlEntries : Type 0 where
    end : TomlEntries
    entry : Text → TomlValue → TomlEntries → TomlEntries

  pub data TomlTables : Type 0 where
    last : TomlTables
    element : TomlEntries → TomlTables → TomlTables

-- `String(n)`, with one digit for each unit of fuel; `n` units are enough
unfoldable pub digits_from : ℕ → ℕ → Text → Text
digits_from zero n out = out
digits_from (suc fuel) n out =
    let more = digits_from fuel (n / 10) ((48 + n % 10) ∷ out) in
    if ltb n 10 then (48 + n) ∷ out else more

abbrev pub decimal : ℕ → Text
decimal n = digits_from (suc n) n []

-- `[\n    a,\n    b,\n]`, or `[a]` on one line
unfoldable pub indented : List Text → Text
indented [] = []
indented (item ∷ items) = text "    " ++ (toml_string item ++ (text "," ++ (0x0a ∷ indented items)))

toml_array : List Text → Text
unfolding indented
toml_array [] = text "[]"
toml_array (item ∷ []) = text "[" ++ (toml_string item ++ text "]")
toml_array items = text "[" ++ (0x0a ∷ (indented items ++ text "]"))

abbrev bool_text : Bool → Text
bool_text b = if b then text "true" else text "false"

pub record Section : Type 0 where
  pub key : Option (List Text)
  -- the field `array`
  pub is_array : Bool
  pub body : Text
  pub has_children : Bool

abbrev line : Text → Text → Text
line name value = toml_key name ++ (text " = " ++ (value ++ 0x0a ∷ []))

abbrev has_elements : TomlTables → Bool
has_elements last = false
has_elements (element es ts) = true

-- what one entry adds to its section's body
unfoldable pub body_line : Text → TomlValue → Text
unfolding toml_array
body_line name undefined = []
body_line name (string s) = line name (toml_string s)
body_line name (number n) = line name (decimal n)
body_line name (boolean b) = line name (bool_text b)
body_line name (array items) = line name (toml_array items)
body_line name (table es) = []
body_line name (tables last) = line name (text "[]")
body_line name (tables (element es ts)) = []

unfoldable pub body_of : TomlEntries → Text
body_of end = []
body_of (entry name value rest) = body_line name value ++ body_of rest

abbrev is_child : TomlValue → Bool
is_child (table es) = true
is_child (tables ts) = has_elements ts
is_child _ = false

unfoldable pub any_child : TomlEntries → Bool
any_child end = false
any_child (entry name value rest) = is_child value || any_child rest

abbrev section : Option (List Text) → Bool → TomlEntries → Section
section key is_array es = record {
  key = key;
  is_array = is_array;
  body = body_of es;
  has_children = any_child es;
}

-- The sections that `emit` pushes below a table at `path`, in order. A section is pushed before
-- those of its subtables, and its body is complete when the table's entries are.
unfoldable mutual
  pub below_value : List Text → TomlValue → List Section
  below_value path (table es) = section (some path) false es ∷ below path es
  below_value path (tables ts) = below_tables path ts
  below_value path _ = []

  pub below : List Text → TomlEntries → List Section
  below path end = []
  below path (entry name value rest) = below_value (path ++ name ∷ []) value ++ below path rest

  pub below_tables : List Text → TomlTables → List Section
  below_tables path last = []
  below_tables path (element es rest) =
      section (some path) true es ∷ (below path es ++ below_tables path rest)

unfoldable pub emit : TomlEntries → List Section
emit root = section none false root ∷ below [] root

abbrev is_kept : Section → Bool
is_kept s = elim s.key [
  | none ↦ not (is_empty s.body)
  | some path ↦ s.is_array || not (is_empty s.body) || not s.has_children
]

abbrev header : Bool → List Text → Text
header is_array path =
    let name = join b'.' (map toml_key path) in
    if is_array
    then text "[[" ++ (name ++ (text "]]" ++ 0x0a ∷ []))
    else text "[" ++ (name ++ (text "]" ++ 0x0a ∷ []))

abbrev printed : Section → Text
printed s = elim s.key [ none ↦ s.body | some path ↦ header s.is_array path ++ s.body ]

unfoldable pub to_toml : TomlEntries → Text
to_toml root = join 0x0a (map printed (filter is_kept (emit root)))
