-- ===== src/Yaml.antt =====
-- host/src/yaml-compat.ts: legacy octal numbers in a YAML text, line by line.
pub mod Octal
mod Tests
use akuapkg.Common.{
  ℕ, zero, suc, ◌+◌, ◌-◌, ◌*◌, Text, text, text_eq, starts_with, Bool, true, false, not, ◌&&◌, ◌||◌,
  Option, none, some, List, [], ◌∷◌, ◌++◌, all, length, take, drop, ◌==◌, ltb, leb, if◌then◌else◌,
}
use akuapkg.Toml.Document.{decimal}
use akuapkg.Archive.{is_space, trim_start}

-- `text.split(/(?<=\n)/)`; never empty
unfoldable pub split_lines : Text → Text × List Text
split_lines [] = ([], [])
split_lines (a ∷ []) = (a ∷ [], [])
split_lines (a ∷ b ∷ s) =
    let (line, more) = split_lines (b ∷ s) in
    if a == 0x0a then (a ∷ [], line ∷ more) else (a ∷ line, more)

-- `.replace(/\r?\n$/, "")`
unfoldable pub without_ending : Text → Text
without_ending [] = []
without_ending (a ∷ s) =
    let rest = without_ending s in
    if text_eq (a ∷ s) (0x0a ∷ []) || text_eq (a ∷ s) (0x0d ∷ 0x0a ∷ []) then [] else a ∷ rest

unfoldable pub indent_of : Text → ℕ
indent_of [] = 0
indent_of (a ∷ s) = let rest = indent_of s in if a == 32 then suc rest else 0

-- `singleQuoted`, `doubleQuoted` and `escaped` of the scan
pub data Quote : Type 0 where
  unquoted single double escaped : Quote

abbrev pub ends_key : Text → Bool
ends_key [] = true
ends_key (c ∷ s) = is_space c

abbrev pub after_plain : ℕ → Quote
after_plain c = if c == b'"' then double else if c == b'\'' then single else unquoted

abbrev pub after_double : ℕ → Quote
after_double c = if c == b'\\' then escaped else if c == b'"' then unquoted else double

abbrev pub next_quote : Quote → ℕ → Quote
next_quote unquoted c = after_plain c
next_quote single c = if c == b'\'' then unquoted else single
next_quote double c = after_double c
next_quote escaped c = double

abbrev pub is_unquoted : Quote → Bool
is_unquoted unquoted = true
is_unquoted quote = false

-- the scan from an index on
unfoldable pub value_start : Quote → ℕ → Text → Option ℕ
value_start quote index [] = none
value_start quote index (c ∷ s) =
    let later = value_start (next_quote quote c) (suc index) s in
    if is_unquoted quote && c == b':' && ends_key s then some (suc index) else later

abbrev pub mapping_value_start : Text → Option ℕ
mapping_value_start line = value_start unquoted 0 line

abbrev pub is_octal : ℕ → Bool
is_octal c = leb b'0' c && leb c b'7'

-- `[0-7]+`, and what follows
unfoldable pub octal_run : Text → Text × Text
octal_run [] = ([], [])
octal_run (c ∷ s) =
    let (digits, rest) = octal_run s in if is_octal c then (c ∷ digits, rest) else ([], c ∷ s)

-- `(?=$|[ \t#,\]}])`
abbrev pub ends_value : Text → Bool
ends_value [] = true
ends_value (c ∷ s) = c == 32 || c == 9 || c == b'#' || c == b',' || c == b']' || c == b'}'

-- the number that `Number.parseInt(digits, 8)` is the double of, with the number so far
unfoldable pub octal_value : ℕ → Text → ℕ
octal_value so_far [] = so_far
octal_value so_far (c ∷ s) = octal_value (so_far * 8 + (c - 48)) s

abbrev pub starts_block : Text → Bool
starts_block trimmed = starts_with trimmed (text "|") || starts_with trimmed (text ">")

-- a line as it is written, and the indent of the block scalar that it begins
abbrev pub Written : Type 0
Written = Text × Option ℕ

abbrev pub stays_in : ℕ → Text → Bool
stays_in block line = all is_space line || ltb block (indent_of line)

-- `large` is how the platform prints a number of 2^53 or more, whose double may be rounded
module _ (large : ℕ → Text) where
  -- a number as a template prints it: the double is exact below 2^53
  abbrev pub number_digits : ℕ → Text
  number_digits n = if ltb n 9007199254740992 then decimal n else large n

  abbrev pub number_text : Bool → ℕ → Text
  number_text negative n =
      if negative && not (n == 0) then b'-' ∷ number_digits n else number_digits n

  -- a `0` with octal digits behind it and an end
  abbrev pub unsigned_octal : Bool → Text → Option Text
  unsigned_octal negative [] = none
  unsigned_octal negative (c ∷ s) =
      let (digits, rest) = octal_run s in
      if c == b'0' && not (text_eq digits []) && ends_value rest
      then some (number_text negative (octal_value 0 digits) ++ rest)
      else none

  -- the value with its legacy octal number as a decimal one, if it starts with one
  unfoldable pub rewritten : Text → Option Text
  rewritten [] = none
  rewritten (c ∷ s) =
      if c == b'-'
      then unsigned_octal true s
      else if c == b'+'
      then unsigned_octal false s
      else unsigned_octal false (c ∷ s)

  abbrev pub replaced_value : Text → Text → ℕ → Text → Text → Option Text → Written
  replaced_value with_ending line start value trimmed none = (with_ending, none)
  replaced_value with_ending line start value trimmed (some after) = (
    take (start + (length value - length trimmed)) line
        ++ (after ++ drop (length line) with_ending),
    none,
  )

  abbrev pub written_value : Text → Text → ℕ → Text → Text → Written
  written_value with_ending line start value trimmed =
      if starts_block trimmed
      then (with_ending, some (indent_of line))
      else replaced_value with_ending line start value trimmed (rewritten trimmed)

  abbrev pub written_at : Text → Text → Option ℕ → Written
  written_at with_ending line none = (with_ending, none)
  written_at with_ending line (some start) =
      written_value with_ending line start (drop start line) (trim_start (drop start line))

  abbrev pub written_plain : Text → Written
  written_plain with_ending =
      let line = without_ending with_ending in
      written_at with_ending line (mapping_value_start line)

  -- one line, inside a block scalar of that indent or not
  unfoldable pub written_line : Option ℕ → Text → Written
  written_line none with_ending = written_plain with_ending
  written_line (some block) with_ending =
      if stays_in block (without_ending with_ending)
      then (with_ending, some block)
      else written_plain with_ending

  unfoldable pub written_lines : Option ℕ → List Text → Text
  written_lines block [] = []
  written_lines block (line ∷ lines) =
      let (out, next) = written_line block line in out ++ written_lines next lines

  unfoldable pub normalize_legacy_octal : Text → Text
  normalize_legacy_octal source =
      let (first, more) = split_lines source in written_lines none (first ∷ more)
